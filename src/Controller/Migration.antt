-- ===== src/Controller/Migration.antt =====
-- internal/controller/migration/controller.go
pub mod Applied
pub mod Ended
pub mod Success
use supabase_kubernetes.Api.Common.{ResolvedDatabase}
use supabase_kubernetes.Api.Databases.{SingleDatabase}
use supabase_kubernetes.Api.Migrations.{Migration, migration_conditioned}
use supabase_kubernetes.Controller.Common.{
  ReconcileResult, StatusWriter, ensure_built, fail, finished, note_not_ready, put_status, wait,
}
use supabase_kubernetes.Database.{resolve_ref}
use supabase_kubernetes.Defaults.Assets.{Digest}
use supabase_kubernetes.Defaults.Migration.{
  migration_config_map_name, migration_hash, migration_job_name,
}
use supabase_kubernetes.Go.Exec.{Exec, attempt, pure, raise, ◌>>◌, ◌>>=◌}
use supabase_kubernetes.Go.Outcome.{Outcome, errorf}
use supabase_kubernetes.Kube.Client.{Client, Machinery}
use supabase_kubernetes.Kube.Condition.{Conditions}
use supabase_kubernetes.Kube.Core.{ConfigMap}
use supabase_kubernetes.Kube.Meta.{Opaque}
use supabase_kubernetes.Kube.Objects.{config_map_object, job_object}
use supabase_kubernetes.Kube.Workload.{Job}
use supabase_kubernetes.Prelude.{
  Bool, Option, String, [], concat, if◌then◌else◌, ltb, none, not, some, ℕ, ◌==◌, ◌=s◌, ◌∷◌,
}
use supabase_kubernetes.Reconciler.Ensure.{is_not_found}
use supabase_kubernetes.Reconciler.Mutate.Simple.{mutate_config_map}
use supabase_kubernetes.Reconciler.Mutate.Workloads.{mutate_job}
use supabase_kubernetes.Reconciler.Status.{set_ready}

-- The Reconciler with its clients, and what it takes from internal/defaults/migration.
pub record Reconciler (W : Type 0) : Type 0 where
  pub machinery : Machinery W
  pub conditions : Conditions
  pub migrations : Client W Migration
  pub databases : Client W SingleDatabase
  pub config_maps : Client W ConfigMap
  pub jobs : Client W Job
  -- equality.Semantic.DeepEqual on statuses and on whole objects
  pub same_status : Migration → Migration → Bool
  pub same_config_map : ConfigMap → ConfigMap → Bool
  pub same_job : Job → Job → Bool
  pub build_config_map : Migration → Outcome (Option ConfigMap)
  pub build_job : Migration → ResolvedDatabase → Outcome (Option Job)
  pub digest : Digest
  -- metav1.Now()
  pub now : W → Opaque
  pub requeue_interval : ℕ

module _ {W : Type 0} (r : Reconciler W) where
  abbrev pub status : StatusWriter W Migration
  status = record {
    machinery = r.machinery;
    conditions = r.conditions;
    conditioned = migration_conditioned;
    client = r.migrations;
    same_status = r.same_status;
  }

  unfoldable pub ensure_config_map : Migration → Exec W (Unit {0})
  ensure_config_map migration =
      ensure_built config_map_object r.machinery r.config_maps r.same_config_map mutate_config_map
        "configmap" (migration_config_map_name migration) migration.meta.namespace
        (r.build_config_map migration) migration.meta

  unfoldable pub ensure_job : Migration → ResolvedDatabase → Exec W (Unit {0})
  ensure_job migration db =
      ensure_built job_object r.machinery r.jobs r.same_job mutate_job "job"
        (migration_job_name migration) migration.meta.namespace (r.build_job migration db)
        migration.meta

  -- the object that markReady writes
  unfoldable pub applied : Migration → Opaque → Migration
  applied migration now =
      set_ready migration_conditioned r.conditions
        (record migration {
          status = record migration.status {
            applied_hash = migration_hash r.digest migration;
            applied_at = some now;
          };
        })
        "ReconcileSucceeded" "Migration applied successfully"

  unfoldable pub mark_ready : Migration → Exec W (Unit {0})
  mark_ready migration w = put_status status (applied migration (r.now w)) w

  -- from the status of the Job on
  unfoldable pub follow_job : Migration → Job → Exec W ReconcileResult
  follow_job migration job =
      if ltb 0 job.status.failed
      then note_not_ready status migration "JobFailed" "Migration Job failed"
          (raise (errorf (concat ("migration Job " ∷ job.meta.name ∷ " failed" ∷ []))))
      else if job.status.succeeded == 0
      then wait status r.requeue_interval migration "JobInProgress"
          "Waiting for migration Job to complete"
      else do mark_ready migration; pure finished

  unfoldable pub run_job : Migration → ResolvedDatabase → Exec W ReconcileResult
  run_job migration db = attempt (ensure_job migration db) (fail status migration "JobFailed") (λ _.
      attempt (λ w. (r.jobs.get migration.meta.namespace (migration_job_name migration) w, w))
        (fail status migration "JobGetFailed") (follow_job migration))

  -- once the database is resolved
  unfoldable pub apply : Migration → ResolvedDatabase → Exec W ReconcileResult
  apply migration db =
      attempt (ensure_config_map migration) (fail status migration "ConfigMapFailed") (λ _.
        if not (migration.status.applied_hash =s "") then pure finished else run_job migration db)

  unfoldable pub reconcile_found : Migration → Exec W ReconcileResult
  reconcile_found migration =
      attempt
        (λ w. (
          resolve_ref r.conditions r.databases migration.spec.database_ref migration.meta.namespace
              w,
          w,
        ))
        (fail status migration "DatabaseResolutionFailed")
        (λ found. elim found [
          | none ↦
              wait status r.requeue_interval migration "DatabaseNotReady"
                "Referenced database is not ready"
          | some db ↦ apply migration db
        ])

  unfoldable pub reconcile : (namespace name : String) → Exec W ReconcileResult
  reconcile namespace name =
      attempt (λ w. (r.migrations.get namespace name w, w))
        (λ e. if is_not_found e then pure finished else raise e) reconcile_found
