-- ===== src/Tests/Projects.antt =====
-- The theorems on the Project reconciler at concrete clusters.
use supabase_kubernetes.Api.Common.{ResolvedDatabase, database_ref_eq}
use supabase_kubernetes.Api.Migrations.{Migration}
use supabase_kubernetes.Api.Projects.{Project}
use supabase_kubernetes.Controller.Common.{ensure_wanted, finished, put_status}
use supabase_kubernetes.Controller.Project.{
  Reconciler, db_password_value, ensure_jwt_secret, ensure_keys_secret, ensure_migration,
  mark_ready, password_value, pending_migrations, pending_names, ready_project,
}
use supabase_kubernetes.Controller.Project.Pending.{
  IsDone, pending_migrations-eq-nil, reconcile-pending,
}
use supabase_kubernetes.Controller.Project.Run.{
  await_migrations, ensure_secrets, prepare, reconcile, reconcile_found, sync, with_database,
  with_pending,
}
use supabase_kubernetes.Controller.Project.Success.{IsReady, reconcile-finished}
use supabase_kubernetes.Controller.Project.Sync.{sync_jwt, sync_password}
use supabase_kubernetes.Database.{resolve_ref}
use supabase_kubernetes.Defaults.Project.{
  jwt_secret_name, keys_secret, keys_secret_name, project_migration, project_migration_name,
}
use supabase_kubernetes.Defaults.Project.Sync.{
  compute_jwt_sync_hash, sync_jwt_job, sync_password_job,
}
use supabase_kubernetes.Go.Exec.{Exec}
use supabase_kubernetes.Go.GoMap.{literal, nil}
use supabase_kubernetes.Go.Outcome.{err, errorf, ok}
use supabase_kubernetes.Go.Strings.{insert_string, sort_strings}
use supabase_kubernetes.Helper.Random.{Random, encode_to_string, generate_random_hex}
use supabase_kubernetes.Kube.Client.{Client}
use supabase_kubernetes.Kube.Condition.{Condition}
use supabase_kubernetes.Kube.Core.{Secret}
use supabase_kubernetes.Kube.Meta.{object_meta}
use supabase_kubernetes.Prelude.{
  All, List, [], arith, none, refl, some, ◌&&◌, ◌=s◌, ◌↔◌, ◌∷◌, ◌≡◌, ◌≢◌,
}
use supabase_kubernetes.Reconciler.Ensure.{
  check_existing, create_missing, ensure_resource, own, ownership_error, update_existing,
}
use supabase_kubernetes.Reconciler.Mutate.Simple.{copy_missing, mutate_migration, mutate_secret}
use supabase_kubernetes.Reconciler.Status.{set_ready, update_status, update_status_once}
use supabase_kubernetes.Reconciler.StringMap.{merge_string_maps}
use supabase_kubernetes.Tests.Objects.{assets, main_ref, migration_with, ready, world_with}
use supabase_kubernetes.Tests.World.{
  World, conditions, controller_reference, database_client, is_true, job_client, machinery,
  migration_client, project_client, secret_client,
}

-- A client that may read Migrations, but not write them.
abbrev forbidden : Exec World (Unit {0})
forbidden w = (err (errorf "forbidden"), w)

abbrev read_only : Client World Migration
read_only = record migration_client {
  create = λ t. forbidden;
  update = λ t. forbidden;
  delete = λ namespace name. forbidden;
}

-- a random source that gives one byte
abbrev zeros : Random World
zeros = record { read = λ n w. (ok (0 ∷ []), w); int = λ n w. (ok 0, w) }

abbrev jwt_secret : Project → Exec World Secret
jwt_secret project w = (
  ok (record {
    meta = object_meta (jwt_secret_name project) "ns" nil;
    type = "Opaque";
    data_map = literal (("jwt-secret", "s") ∷ []);
  }),
  w,
)

abbrev reconciler : Reconciler World
reconciler = record {
  machinery = machinery;
  conditions = conditions;
  projects = project_client;
  databases = database_client;
  migrations = read_only;
  secrets = secret_client;
  jobs = job_client;
  same_status = λ a b. is_true a.status.conditions "Ready" && is_true b.status.conditions "Ready";
  same_migration = λ a b. a.meta.name =s b.meta.name;
  same_secret = λ a b. a.meta.name =s b.meta.name;
  same_job = λ a b. a.meta.name =s b.meta.name;
  build_migration = project_migration assets;
  build_jwt_secret = jwt_secret;
  build_keys_secret = keys_secret zeros;
  build_sync_jwt_job = sync_jwt_job assets;
  build_sync_password_job = sync_password_job assets;
  digest = λ s. "hash";
  requeue_interval = 10;
}

-- A Project whose settings are in the database.
abbrev project : Project
project = record {
  meta = object_meta "p" "ns" nil;
  spec = record {
    jwt_exp_sec = some 3600;
    public_url = "http://localhost:8000";
    database_ref = main_ref;
    migrations = none;
    postgrest = none;
  };
  status = record { conditions = []; jwt_sync_hash = "hash"; password_sync_hash = "hash" };
}

abbrev first_migration : List Condition → Migration
first_migration conditions = record (migration_with "") {
  meta = record (object_meta "p-migration-1" "ns" nil) {
    owner_references = controller_reference project.meta ∷ [];
  };
  status = record { conditions = conditions; applied_hash = ""; applied_at = none };
}

abbrev password_secret : Secret
password_secret = record {
  meta = object_meta "main-password" "ns" nil;
  type = "Opaque";
  data_map = literal (("password", "pw") ∷ []);
}

abbrev world_of_project : List Condition → World
world_of_project conditions = record (world_with (first_migration conditions) none) {
  project = some project;
  secrets = password_secret ∷ [];
}

pending_migrations-eq-nil_example :
    (pending_migrations reconciler project (world_of_project (ready ∷ [])) ≡ ok []) ↔ (
      (ms : List Migration) × (read_only.list "ns" (world_of_project (ready ∷ [])) ≡ ok ms)
      × All (IsDone conditions project) ms)
pending_migrations-eq-nil_example =
    pending_migrations-eq-nil reconciler project (world_of_project (ready ∷ []))

-- The Migration is there and not ready, and there is no Job and one Secret.
record IsWaiting (w : World) : Type 0 where
  migration : w.migration ≡ some (first_migration [])
  job : w.job ≡ none
  secrets : w.secrets ≡ password_secret ∷ []

waiting-pending : (w : World) → IsWaiting w → pending_migrations reconciler project w ≢ ok []
unfolding pending_migrations pending_names database_ref_eq sort_strings insert_string
waiting-pending w h e = cc (rw (h.migration, pending_migrations) at e)

reconcile-pending_example : IsWaiting (reconcile reconciler "ns" "p" (world_of_project [])).1
reconcile-pending_example =
    reconcile-pending reconciler {P = IsWaiting} "ns" "p" (world_of_project []) project refl
      (record {
        create = λ t. record { at = λ w h. h };
        update = λ t. record { at = λ w h. h };
        delete = λ namespace name. record { at = λ w h. h };
      })
      (λ reason message latest. record {
        at = λ w h. record { migration = h.migration; job = h.job; secrets = h.secrets };
      })
      waiting-pending (record { migration = refl; job = refl; secrets = refl })

-- the cluster after a run
abbrev ready_world : World
ready_world = (reconcile reconciler "ns" "p" (world_of_project (ready ∷ []))).1

ready_run :
    reconcile reconciler "ns" "p" (world_of_project (ready ∷ [])) ≡ (ok finished, ready_world)
unfolding reconcile reconcile_found resolve_ref with_database prepare ensure_migration ensure_wanted
    ensure_resource own check_existing ownership_error update_existing create_missing
    mutate_migration project_migration await_migrations pending_migrations pending_names
    database_ref_eq sort_strings insert_string with_pending ensure_secrets ensure_jwt_secret
    ensure_keys_secret mutate_secret copy_missing keys_secret generate_random_hex encode_to_string
    sync db_password_value password_value sync_jwt compute_jwt_sync_hash sync_password mark_ready
    put_status update_status update_status_once merge_string_maps ready_project set_ready
    jwt_secret_name project_migration_name keys_secret_name
ready_run = refl

reconcile-finished_example :
    (db : ResolvedDatabase) × (resolve_ref conditions database_client main_ref "ns"
        (world_of_project (ready ∷ []))
      ≡ ok (some db))
    × ((v : World) × (pending_migrations reconciler project v ≡ ok []))
    × IsReady reconciler project db ready_world
reconcile-finished_example =
    reconcile-finished reconciler "ns" "p" (world_of_project (ready ∷ [])) ready_world project
      (λ e. omega arith) refl ready_run
