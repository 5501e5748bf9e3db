-- ===== src/Controller/Migration/Applied.antt =====
-- What a run of the Migration reconciler writes, by the state of the Migration and of its Job.
use supabase_kubernetes.Api.Common.{ResolvedDatabase}
use supabase_kubernetes.Api.Migrations.{Migration, migration_conditioned}
use supabase_kubernetes.Controller.Common.{fail, finished, wait}
use supabase_kubernetes.Controller.Common.Effects.{
  Keeps-ensure_built, Keeps-note_not_ready, WritesKeep,
}
use supabase_kubernetes.Controller.Migration.{
  Reconciler, apply, ensure_config_map, ensure_job, reconcile, reconcile_found, status,
}
use supabase_kubernetes.Database.{resolve_ref}
use supabase_kubernetes.Go.Exec.Keeps.{Keeps, Keeps-attempt, Keeps-pure, Keeps-raise, Keeps-reads}
use supabase_kubernetes.Go.Outcome.{Error, ok}
use supabase_kubernetes.Kube.Objects.{config_map_object, job_object}
use supabase_kubernetes.Prelude.{
  Option, String, arith, eq_iff, none, not, refl, some, true, ℕ, ◌=s◌, ◌≡◌, ◌≢◌,
}
use supabase_kubernetes.Reconciler.Mutate.Simple.{mutate_config_map}
use supabase_kubernetes.Reconciler.Mutate.Workloads.{mutate_job}
use supabase_kubernetes.Reconciler.Status.{set_not_ready}

-- Each status of the Migration that says "not ready" and leaves the rest as it was keeps `P`.
abbrev pub NotReadyKeeps : {W : Type 0} → Reconciler W → (W → Type 0) → Migration → Type 0
NotReadyKeeps r P migration =
    (reason message : String) (latest : Migration)
    → Keeps P (
        r.migrations.update_status (
          migration_conditioned.copy_status
            (set_not_ready migration_conditioned r.conditions migration reason message) latest))

module _ {W : Type 0} (r : Reconciler W) {P : W → Type 0} (migration : Migration) where
  module _ (writes : NotReadyKeeps r P migration) where
    pub Keeps-fail : (reason : String) (e : Error) → Keeps P (fail (status r) migration reason e)
    unfolding fail
    Keeps-fail reason e =
        Keeps-note_not_ready (status r) migration reason e.text _ (writes reason e.text)
          (Keeps-raise e)

    pub Keeps-wait :
        (n : ℕ) (reason message : String) → Keeps P (wait (status r) n migration reason message)
    unfolding wait
    Keeps-wait n reason message =
        Keeps-note_not_ready (status r) migration reason message _ (writes reason message)
          (Keeps-pure _)

    pub Keeps-ensure_config_map :
        WritesKeep r.config_maps P → Keeps P (ensure_config_map r migration)
    unfolding ensure_config_map
    Keeps-ensure_config_map maps =
        Keeps-ensure_built config_map_object r.machinery r.config_maps r.same_config_map maps
          mutate_config_map _ _ _ _ _

    pub Keeps-ensure_job :
        WritesKeep r.jobs P → (db : ResolvedDatabase) → Keeps P (ensure_job r migration db)
    unfolding ensure_job
    Keeps-ensure_job jobs db =
        Keeps-ensure_built job_object r.machinery r.jobs r.same_job jobs mutate_job _ _ _ _ _

    -- A run is its steps up to the database, and `apply`.
    pub Keeps-reconcile_found :
        ((db : ResolvedDatabase) → Keeps P (apply r migration db))
        → Keeps P (reconcile_found r migration)
    unfolding reconcile_found
    Keeps-reconcile_found k =
        Keeps-attempt _ _ _
          (Keeps-reads (λ w.
            resolve_ref r.conditions r.databases migration.spec.database_ref
              migration.meta.namespace w))
          (Keeps-fail "DatabaseResolutionFailed") by_database
      where
        by_database :
            (found : Option ResolvedDatabase)
            → Keeps P (elim found [
              | none ↦
                  wait
                    (status r)
                    r.requeue_interval
                    migration
                    "DatabaseNotReady"
                    "Referenced database is not ready"
              | some db ↦ apply r migration db
            ])
        by_database none = Keeps-wait r.requeue_interval _ _
        by_database (some db) = k db

    apply_applied :
        WritesKeep r.config_maps P
        → migration.status.applied_hash ≢ ""
        → (db : ResolvedDatabase) → Keeps P (apply r migration db)
    unfolding apply
    apply_applied maps h db =
        Keeps-attempt _ _ _ (Keeps-ensure_config_map maps) (Keeps-fail "ConfigMapFailed") λ _.
          let test : not (migration.status.applied_hash =s "") ≡ true =
            ground (arith, eq_iff migration.status.applied_hash "") in
          rw test (Keeps-pure finished)

pub reconcile-found :
    {W : Type 0} (r : Reconciler W) (namespace name : String) (w : W) (migration : Migration)
    → r.migrations.get namespace name w ≡ ok migration
    → reconcile r namespace name w ≡ reconcile_found r migration w
unfolding reconcile
reconcile-found r namespace name w migration found = rw found refl

-- A run for a Migration that has been applied writes ConfigMaps and statuses that are not ready,
-- and nothing else: no Job is touched, and the Migration is never made Ready again. What these two
-- kinds of write keep, the run keeps.
pub reconcile-applied :
    {W : Type 0} (r : Reconciler W) {P : W → Type 0} (namespace name : String) (w : W)
    (migration : Migration)
    → r.migrations.get namespace name w ≡ ok migration
    → migration.status.applied_hash ≢ ""
    → WritesKeep r.config_maps P
    → NotReadyKeeps r P migration
    → P w
    → P (reconcile r namespace name w).1
reconcile-applied r {P} namespace name w migration found h maps writes p =
    rw (reconcile-found r namespace name w migration found)
      ((Keeps-reconcile_found r migration writes (apply_applied r migration writes maps h)).at w p)
