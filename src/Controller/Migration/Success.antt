-- ===== src/Controller/Migration/Success.antt =====
-- When a run marks a Migration as applied.
use supabase_kubernetes.Api.Common.{ResolvedDatabase}
use supabase_kubernetes.Api.Migrations.{Migration, migration_conditioned}
use supabase_kubernetes.Controller.Common.{fail, finished}
use supabase_kubernetes.Controller.Common.Effects.{Keeps-note_not_ready, WritesKeep}
use supabase_kubernetes.Controller.Migration.{
  Reconciler, applied, apply, follow_job, reconcile, run_job, status,
}
use supabase_kubernetes.Controller.Migration.Applied.{
  Keeps-ensure_config_map, Keeps-ensure_job, Keeps-fail, Keeps-reconcile_found, Keeps-wait,
  NotReadyKeeps, reconcile-found,
}
use supabase_kubernetes.Defaults.Migration.{migration_hash, migration_job_name}
use supabase_kubernetes.Go.Exec.Keeps.{
  Keeps, Keeps-attempt, Keeps-if, Keeps-pure, Keeps-raise, Keeps-read,
}
use supabase_kubernetes.Go.Outcome.{ok}
use supabase_kubernetes.Kube.Meta.{Opaque}
use supabase_kubernetes.Kube.Workload.{Job}
use supabase_kubernetes.Prelude.{
  Bool-cases, String, arith, inl, inr, ltb, not, refl, some, true, ◌<◌, ◌==◌, ◌=s◌, ◌≡◌, ◌⊎◌,
}
use supabase_kubernetes.Reconciler.Status.{set_ready}
use supabase_kubernetes.Reconciler.Status.Laws.{is_ready, set_ready_lem}

-- The Job has a failed pod, or no pod that has succeeded.
abbrev pub IsUnsuccessful : Job → Type 0
IsUnsuccessful job = (0 < job.status.failed) ⊎ (job.status.succeeded ≡ 0)

module _ {W : Type 0} (r : Reconciler W) {P : W → Type 0} (migration : Migration)
    (writes : NotReadyKeeps r P migration) where
  follow_unsuccessful : (job : Job) → IsUnsuccessful job → Keeps P (follow_job r migration job)
  unfolding follow_job
  follow_unsuccessful job h = elim (Bool-cases (ltb 0 job.status.failed)) [
    | inl failed ↦ rw failed (
        Keeps-note_not_ready (status r) migration "JobFailed" "Migration Job failed" _ (writes _ _)
          (Keeps-raise _))
    | inr unfailed ↦
        let waiting : (job.status.succeeded == 0) ≡ true = ground arith in
        rw (unfailed, waiting) (Keeps-wait r migration writes r.requeue_interval _ _)
  ]

  module _ (maps : WritesKeep r.config_maps P) (jobs : WritesKeep r.jobs P)
      (unsuccessful : (w : W) (job : Job)
        → P w
        → r.jobs.get migration.meta.namespace (migration_job_name migration) w ≡ ok job
        → IsUnsuccessful job) where
    run_unsuccessful : (db : ResolvedDatabase) → Keeps P (run_job r migration db)
    unfolding run_job
    run_unsuccessful db =
        Keeps-attempt _ _ _ (Keeps-ensure_job r migration writes jobs db)
          (Keeps-fail r migration writes "JobFailed")
          (λ _.
            Keeps-read (r.jobs.get migration.meta.namespace (migration_job_name migration))
              (fail (status r) migration "JobGetFailed") (follow_job r migration)
              (Keeps-fail r migration writes "JobGetFailed")
              (λ w job p found. (follow_unsuccessful job (unsuccessful w job p found)).at w p))

    apply_unsuccessful : (db : ResolvedDatabase) → Keeps P (apply r migration db)
    unfolding apply
    apply_unsuccessful db =
        Keeps-attempt _ _ _ (Keeps-ensure_config_map r migration writes maps)
          (Keeps-fail r migration writes "ConfigMapFailed")
          (λ _.
            Keeps-if (not (migration.status.applied_hash =s "")) _ _ (Keeps-pure finished)
              (run_unsuccessful db))

-- A Migration is not marked as applied without a successful Job: as long as the Job that a run
-- reads has a failed pod, or none that has succeeded, the run writes ConfigMaps, Jobs and statuses
-- that are not ready and keep the applied hash, and nothing else. What these writes keep, the run
-- keeps. A failed pod counts even where another pod of the Job has succeeded.
pub reconcile-unsuccessful :
    {W : Type 0} (r : Reconciler W) {P : W → Type 0} (namespace name : String) (w : W)
    (migration : Migration)
    → r.migrations.get namespace name w ≡ ok migration
    → WritesKeep r.config_maps P
    → WritesKeep r.jobs P
    → NotReadyKeeps r P migration
    → ((v : W) (job : Job)
        → P v
        → r.jobs.get migration.meta.namespace (migration_job_name migration) v ≡ ok job
        → IsUnsuccessful job)
    → P w
    → P (reconcile r namespace name w).1
reconcile-unsuccessful r {P} namespace name w migration found maps jobs writes h p =
    rw (reconcile-found r namespace name w migration found) (
      (Keeps-reconcile_found r migration writes
          (apply_unsuccessful r migration writes maps jobs h)).at
        w p)

-- What the Migration that is written as applied says: its hash is that of its own entries, and its
-- condition Ready is true.
pub applied_lem :
    {W : Type 0} (r : Reconciler W) (migration : Migration) (now : Opaque)
    → ((applied r migration now).status.applied_hash ≡ migration_hash r.digest migration)
      × ((applied r migration now).status.applied_at ≡ some now)
      × (is_ready migration_conditioned r.conditions (applied r migration now) ≡ true)
unfolding applied
applied_lem r migration now = (
  unfold set_ready in refl,
  unfold set_ready in refl,
  (set_ready_lem migration_conditioned r.conditions _ _ _).0,
)
