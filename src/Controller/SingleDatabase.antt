-- ===== src/Controller/SingleDatabase.antt =====
-- internal/controller/singledatabase/controller.go
pub mod Success
use supabase_kubernetes.Api.Databases.{SingleDatabase, single_database_conditioned}
use supabase_kubernetes.Controller.Common.{
  ReconcileResult, StatusWriter, ensure_built, ensure_wanted, fail, finished, put_status, wait,
}
use supabase_kubernetes.Defaults.SingleDatabase.{
  postgres_pvc_name, postgres_secret_name, postgres_service_host, postgres_service_name,
  postgres_stateful_set_name, secret_key_password,
}
use supabase_kubernetes.Go.Exec.{Exec, attempt, pure, raise, wrapping}
use supabase_kubernetes.Go.Outcome.{Outcome}
use supabase_kubernetes.Kube.Client.{Client, Machinery}
use supabase_kubernetes.Kube.Condition.{Conditions}
use supabase_kubernetes.Kube.Core.{PersistentVolumeClaim, Secret, Service}
use supabase_kubernetes.Kube.Objects.{
  pvc_object, secret_object, service_object, stateful_set_object,
}
use supabase_kubernetes.Kube.Workload.{StatefulSet}
use supabase_kubernetes.Prelude.{Bool, Option, String, [], if◌then◌else◌, ltb, none, some, ℕ, ◌∷◌}
use supabase_kubernetes.Reconciler.Ensure.{is_not_found}
use supabase_kubernetes.Reconciler.Mutate.Pvc.{mutate_pvc}
use supabase_kubernetes.Reconciler.Mutate.Service.{mutate_service}
use supabase_kubernetes.Reconciler.Mutate.Simple.{mutate_secret}
use supabase_kubernetes.Reconciler.Mutate.Workloads.{mutate_stateful_set}
use supabase_kubernetes.Reconciler.Status.{set_ready}

-- The Reconciler with its clients, and what it takes from internal/defaults/singledatabase and
-- internal/helper.
pub record Reconciler (W : Type 0) : Type 0 where
  pub machinery : Machinery W
  pub conditions : Conditions
  pub databases : Client W SingleDatabase
  pub secrets : Client W Secret
  pub claims : Client W PersistentVolumeClaim
  pub services : Client W Service
  pub stateful_sets : Client W StatefulSet
  -- equality.Semantic.DeepEqual on statuses and on whole objects
  pub same_status : SingleDatabase → SingleDatabase → Bool
  pub same_secret : Secret → Secret → Bool
  pub same_claim : PersistentVolumeClaim → PersistentVolumeClaim → Bool
  pub same_service : Service → Service → Bool
  pub same_stateful_set : StatefulSet → StatefulSet → Bool
  pub build_secret : SingleDatabase → Exec W (Option Secret)
  pub build_claim : SingleDatabase → Outcome (Option PersistentVolumeClaim)
  pub build_service : SingleDatabase → Outcome (Option Service)
  pub build_stateful_set : SingleDatabase → String → Outcome (Option StatefulSet)
  pub secret_hash : Secret → String
  pub cluster_domain : String
  pub requeue_interval : ℕ

-- The replicas that the StatefulSet asks for, one where it asks for none.
unfoldable pub wanted_replicas : StatefulSet → ℕ
wanted_replicas sts = elim sts.spec.replicas [ none ↦ 1 | some n ↦ n ]

module _ {W : Type 0} (r : Reconciler W) where
  abbrev pub status : StatusWriter W SingleDatabase
  status = record {
    machinery = r.machinery;
    conditions = r.conditions;
    conditioned = single_database_conditioned;
    client = r.databases;
    same_status = r.same_status;
  }

  unfoldable pub ensure_database_secret : SingleDatabase → Exec W (Unit {0})
  ensure_database_secret db =
      attempt (wrapping "building secret" (r.build_secret db)) raise (λ secret.
        ensure_wanted secret_object r.machinery r.secrets r.same_secret
          (mutate_secret (secret_key_password ∷ [])) "secret" (postgres_secret_name db)
          db.meta.namespace secret db.meta)

  unfoldable pub ensure_pvc : SingleDatabase → Exec W (Unit {0})
  ensure_pvc db =
      ensure_built pvc_object r.machinery r.claims r.same_claim mutate_pvc "pvc"
        (postgres_pvc_name db) db.meta.namespace (r.build_claim db) db.meta

  unfoldable pub ensure_service : SingleDatabase → Exec W (Unit {0})
  ensure_service db =
      ensure_built service_object r.machinery r.services r.same_service mutate_service "service"
        (postgres_service_name db) db.meta.namespace (r.build_service db) db.meta

  unfoldable pub ensure_stateful_set : SingleDatabase → String → Exec W (Unit {0})
  ensure_stateful_set db hash =
      ensure_built stateful_set_object r.machinery r.stateful_sets r.same_stateful_set
        mutate_stateful_set "statefulset" (postgres_stateful_set_name db) db.meta.namespace
        (r.build_stateful_set db hash) db.meta

  -- the object that markReady writes
  unfoldable pub published : SingleDatabase → SingleDatabase
  published db =
      set_ready single_database_conditioned r.conditions
        (record db {
          status = record db.status {
            resolved_database = some (record {
              host = postgres_service_host r.cluster_domain db;
              port = 5432;
              db_name = "postgres";
              user = "supabase_admin";
              password_ref = record { name = postgres_secret_name db; key = secret_key_password };
            });
          };
        })
        "ReconcileSucceeded" "All resources reconciled successfully"

  unfoldable pub publish : SingleDatabase → Exec W ReconcileResult
  publish db = attempt (put_status status (published db)) raise (λ _. pure finished)

  unfoldable pub follow_stateful_set : SingleDatabase → StatefulSet → Exec W ReconcileResult
  follow_stateful_set db sts =
      if ltb sts.status.ready_replicas (wanted_replicas sts)
      then wait status r.requeue_interval db "StatefulSetNotReady"
          "Waiting for StatefulSet pods to be ready"
      else publish db

  -- from ensurePVC on
  unfoldable pub ensure_workload : SingleDatabase → String → Exec W ReconcileResult
  ensure_workload db hash = attempt (ensure_pvc db) (fail status db "PVCFailed") λ _.
      attempt (ensure_service db) (fail status db "ServiceFailed") λ _.
        attempt (ensure_stateful_set db hash) (fail status db "StatefulSetFailed") λ _.
          attempt
            (λ w. (r.stateful_sets.get db.meta.namespace (postgres_stateful_set_name db) w, w))
            (fail status db "StatefulSetGetFailed") (follow_stateful_set db)

  unfoldable pub reconcile_found : SingleDatabase → Exec W ReconcileResult
  reconcile_found db = attempt (ensure_database_secret db) (fail status db "SecretFailed") λ _.
      attempt (λ w. (r.secrets.get db.meta.namespace (postgres_secret_name db) w, w)) raise
        (λ secret. ensure_workload db (r.secret_hash secret))

  unfoldable pub reconcile : (namespace name : String) → Exec W ReconcileResult
  reconcile namespace name =
      attempt (λ w. (r.databases.get namespace name w, w))
        (λ e. if is_not_found e then pure finished else raise e) reconcile_found
