-- ===== src/Tests/World.antt =====
-- A small cluster that holds at most one object of each kind, and the functions of Kubernetes on it.
use text.Mathlib.TextPositions.{eq_refl}
use supabase_kubernetes.Api.Databases.{SingleDatabase}
use supabase_kubernetes.Api.Migrations.{Migration}
use supabase_kubernetes.Api.Projects.{Project}
use supabase_kubernetes.Go.Exec.{Exec}
use supabase_kubernetes.Go.Outcome.{Error, Outcome, err, not_found, ok, other}
use supabase_kubernetes.Kube.Client.{Client, Machinery, final}
use supabase_kubernetes.Kube.Condition.{
  Condition, Conditions, condition_false, condition_true, condition_unknown,
}
use supabase_kubernetes.Kube.Core.{ConfigMap, PersistentVolumeClaim, Secret, Service}
use supabase_kubernetes.Kube.Meta.{ObjectMeta, OwnerReference}
use supabase_kubernetes.Kube.Workload.{Job, StatefulSet}
use supabase_kubernetes.Prelude.{
  Bool, List, Option, String, [], arith, eq_iff, false, if◌then◌else◌, none, some, true, ◌&&◌, ◌=s◌,
  ◌∷◌, ◌≡◌, ◌≢◌,
}
use supabase_kubernetes.Reconciler.Converge.{Controls}

pub record World : Type 0 where
  pub migration : Option Migration
  pub database : Option SingleDatabase
  pub config_map : Option ConfigMap
  pub service : Option Service
  pub secrets : List Secret
  pub job : Option Job
  pub project : Option Project
  pub claim : Option PersistentVolumeClaim
  pub stateful_set : Option StatefulSet

abbrev pub no_object : Error
no_object = record { reason = not_found; text = "not found" }

abbrev pub exists_already : Error
exists_already = record { reason = other; text = "already exists" }

module _ {W T : Type 0} (meta : T → ObjectMeta) (read : W → Option T)
    (write : Option T → W → W) where
  abbrev pub find_slot : String → String → W → Outcome T
  find_slot namespace name w = elim (read w) [
    | none ↦ err no_object
    | some t ↦
        if ((meta t).namespace =s namespace) && ((meta t).name =s name) then ok t else err no_object
  ]

  abbrev pub create_slot : T → Exec W (Unit {0})
  create_slot t w = elim (read w) [
    | none ↦ (ok tt, write (some t) w)
    | some _ ↦ (err exists_already, w)
  ]

  abbrev pub slot_client : Client W T
  slot_client = record {
    get = find_slot;
    list = λ namespace w. elim (read w) [ none ↦ ok [] | some t ↦ ok (t ∷ []) ];
    create = create_slot;
    update = λ t w. (ok tt, write (some t) w);
    update_status = λ t w. (ok tt, write (some t) w);
    delete = λ namespace name w. (ok tt, write none w);
  }

abbrev pub migration_client : Client World Migration
migration_client = slot_client (λ t. t.meta) (λ w. w.migration) (λ t w. record w { migration = t })

abbrev pub database_client : Client World SingleDatabase
database_client = slot_client (λ t. t.meta) (λ w. w.database) (λ t w. record w { database = t })

abbrev pub config_map_client : Client World ConfigMap
config_map_client =
    slot_client (λ t. t.meta) (λ w. w.config_map) (λ t w. record w { config_map = t })

abbrev pub service_client : Client World Service
service_client = slot_client (λ t. t.meta) (λ w. w.service) (λ t w. record w { service = t })

-- Secrets, the latest first.
abbrev pub find_secret : List Secret → String → String → Outcome Secret
find_secret [] namespace name = err no_object
find_secret (s ∷ ss) namespace name =
    if (s.meta.namespace =s namespace) && (s.meta.name =s name)
    then ok s
    else find_secret ss namespace name

abbrev pub put_secret : Secret → Exec World (Unit {0})
put_secret s w = (ok tt, record w { secrets = s ∷ w.secrets })

abbrev pub secret_client : Client World Secret
secret_client = record {
  get = λ namespace name w. find_secret w.secrets namespace name;
  list = λ namespace w. ok w.secrets;
  create = put_secret;
  update = put_secret;
  update_status = put_secret;
  delete = λ namespace name w. (ok tt, record w { secrets = [] });
}

-- The server sets the status of a new Job to zero, and an update leaves the status.
abbrev pub create_job : Job → Exec World (Unit {0})
create_job t w = elim w.job [
  | none ↦
      (ok tt, record w { job = some (record t { status = record { succeeded = 0; failed = 0 } }) })
  | some _ ↦ (err exists_already, w)
]

abbrev pub update_job : Job → Exec World (Unit {0})
update_job t w = elim w.job [
  | none ↦ (err no_object, w)
  | some j ↦ (ok tt, record w { job = some (record t { status = j.status }) })
]

abbrev pub job_client : Client World Job
job_client = record (slot_client (λ t. t.meta) (λ w. w.job) (λ t w. record w { job = t })) {
  create = create_job;
  update = update_job;
}

abbrev pub project_client : Client World Project
project_client = slot_client (λ t. t.meta) (λ w. w.project) (λ t w. record w { project = t })

-- An owner controls an object whose first reference has the owner's UID.
abbrev pub controlled_by : List OwnerReference → ObjectMeta → Bool
controlled_by [] owner = false
controlled_by (ref ∷ refs) owner = ref.uid =s owner.uid

abbrev pub controller_reference : ObjectMeta → OwnerReference
controller_reference owner = record { uid = owner.uid; controller = some "true"; rest = "" }

abbrev pub plain_machinery : {W : Type 0} → Machinery W
plain_machinery = record {
  set_controller_reference = λ owner meta. ok (controller_reference owner ∷ []);
  is_controlled_by = controlled_by;
  retry_on_conflict = λ body. body;
  retry_lem = λ body w. final w;
}

abbrev pub machinery : Machinery World
machinery = plain_machinery

pub machinery-Controls : Controls machinery
machinery-Controls owner meta refs h = ground (arith, eq_refl owner.uid)

-- Conditions, the latest first.
abbrev pub is_true : List Condition → String → Bool
is_true [] type = false
is_true (c ∷ cs) type =
    if c.type =s type
    then elim c.status [
      | condition_true ↦ true
      | condition_false ↦ false
      | condition_unknown ↦ false
    ]
    else is_true cs type

pub set_first :
    (cs : List Condition) (c : Condition)
    → c.status ≡ condition_true
    → is_true (c ∷ cs) c.type ≡ true
set_first cs c h = ground (arith, eq_refl c.type)

pub set_first_not :
    (cs : List Condition) (c : Condition)
    → c.status ≢ condition_true
    → is_true (c ∷ cs) c.type ≡ false
set_first_not cs c h = ground (arith, eq_refl c.type)

pub skip_first :
    (cs : List Condition) (c : Condition) (type : String)
    → c.type ≢ type
    → is_true (c ∷ cs) type ≡ is_true cs type
skip_first cs c type h = ground (arith, eq_iff c.type type)

abbrev pub conditions : Conditions
conditions = record {
  set_status_condition = λ cs c. c ∷ cs;
  is_status_condition_true = is_true;
  set_true = set_first;
  set_not_true = set_first_not;
  set_other = skip_first;
}
