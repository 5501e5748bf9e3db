-- ===== src/Controller/Migration/Ended.antt =====
-- When a run for a Migration ends with nothing more to ask.
use supabase_kubernetes.Api.Common.{ResolvedDatabase}
use supabase_kubernetes.Api.Migrations.{Migration, migration_conditioned}
use supabase_kubernetes.Controller.Migration.{
  Reconciler, applied, ensure_config_map, ensure_job, status,
}
use supabase_kubernetes.Database.{resolve_ref}
use supabase_kubernetes.Defaults.Migration.{migration_job_name}
use supabase_kubernetes.Go.Exec.{Exec}
use supabase_kubernetes.Go.Outcome.{ok}
use supabase_kubernetes.Kube.Workload.{Job}
use supabase_kubernetes.Prelude.{some, ◌<◌, ◌≡◌, ◌≢◌, ◌⊎◌}
use supabase_kubernetes.Reconciler.Status.Laws.{StatusKept}

module _ {W : Type 0} (r : Reconciler W) (migration : Migration) where
  -- The ConfigMap and the Job were ensured, the Job was then read with a pod that has succeeded and
  -- none that has failed, and the cluster has the status of the applied Migration.
  pub record WasApplied (db : ResolvedDatabase) (w w' : W) : Type 0 where
    pub mapped : W
    pub before : W
    pub map_ensured : ensure_config_map r migration w ≡ (ok tt, mapped)
    pub job_ensured : ensure_job r migration db mapped ≡ (ok tt, before)
    pub job : Job
    pub read : r.jobs.get migration.meta.namespace (migration_job_name migration) before ≡ ok job
    pub unfailed : job.status.failed ≡ 0
    pub succeeded : 0 < job.status.succeeded
    pub kept :
        StatusKept migration_conditioned r.machinery r.migrations r.same_status
          (applied r migration (r.now before))
          w'

  -- Such a run has resolved the database, and has ensured the ConfigMap of a Migration that has been
  -- applied before, or has applied it.
  abbrev pub EndedWell : W → W → Type 0
  EndedWell w w' =
      (db : ResolvedDatabase) × (resolve_ref r.conditions r.databases migration.spec.database_ref
          migration.meta.namespace w
        ≡ ok (some db))
      × (((migration.status.applied_hash ≢ "") × (ensure_config_map r migration w ≡ (ok tt, w')))
          ⊎ WasApplied db w w')
