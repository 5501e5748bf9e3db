-- ===== src/Controller/Project/Pending.antt =====
-- A Project whose Migrations are not all ready.
use supabase_kubernetes.Api.Common.{ResolvedDatabase, database_ref_eq, database_ref_eq_iff}
use supabase_kubernetes.Api.Migrations.{Migration, migration_object}
use supabase_kubernetes.Api.Projects.{Project, project_conditioned}
use supabase_kubernetes.Controller.Common.{fail, wait}
use supabase_kubernetes.Controller.Common.Effects.{
  Keeps-ensure_wanted, Keeps-note_not_ready, WritesKeep,
}
use supabase_kubernetes.Controller.Project.{
  Reconciler, ensure_migration, pending_migrations, pending_names, status,
}
use supabase_kubernetes.Controller.Project.Run.{
  await_migrations, prepare, reconcile, reconcile_found, with_database, with_pending,
}
use supabase_kubernetes.Database.{resolve_ref}
use supabase_kubernetes.Go.Exec.Keeps.{
  Keeps, Keeps-attempt, Keeps-pure, Keeps-raise, Keeps-read, Keeps-reads,
}
use supabase_kubernetes.Go.Outcome.{Error, Outcome, ok}
use supabase_kubernetes.Go.Pure.{bind-eq-ok}
use supabase_kubernetes.Go.Strings.{sort_strings, sort_strings-eq-nil}
use supabase_kubernetes.Kube.Condition.{Conditions}
use supabase_kubernetes.Prelude.{
  All, Bool-cases, List, Option, String, [], ap, arith, inl, inr, none, refl, some, true, ℕ, ◌↔◌,
  ◌∷◌, ◌≡◌, ◌≢◌,
}
use supabase_kubernetes.Reconciler.Mutate.Simple.{mutate_migration}
use supabase_kubernetes.Reconciler.Status.{condition_type_ready, set_not_ready}

-- A Migration of the Project's database is ready.
abbrev pub IsDone : Conditions → Project → Migration → Type 0
IsDone cs project m =
    m.spec.database_ref ≡ project.spec.database_ref
    → cs.is_status_condition_true m.status.conditions condition_type_ready ≡ true

pending_names-eq-nil :
    (cs : Conditions) (project : Project) (ms : List Migration)
    → (pending_names cs project ms ≡ []) ↔ All (IsDone cs project) ms
unfolding pending_names
pending_names-eq-nil cs project [] = (λ h. tt, λ h. refl)
pending_names-eq-nil cs project (m ∷ ms) =
    let (there, back) = pending_names-eq-nil cs project ms in
    let refs = database_ref_eq_iff m.spec.database_ref project.spec.database_ref in
    (
      λ h. (λ same. ground (arith, refs), there (ground (arith, refs))),
      λ h.
          let (first, rest) = h in
          let done = back rest in
          elim (Bool-cases (database_ref_eq m.spec.database_ref project.spec.database_ref)) [
            | inl same ↦ let ready = first (refs.0 same) in rw (same, ready, pending_names) done
            | inr differs ↦ rw (differs, pending_names) done
          ],
    )

-- migrationsReady finds nothing to wait for exactly where the Migrations can be listed and each of
-- them that refers to the Project's database has the condition Ready.
pub pending_migrations-eq-nil :
    {W : Type 0} (r : Reconciler W) (project : Project) (w : W)
    → (pending_migrations r project w ≡ ok []) ↔ (
        (ms : List Migration) × (r.migrations.list project.meta.namespace w ≡ ok ms)
        × All (IsDone r.conditions project) ms)
unfolding pending_migrations
pending_migrations-eq-nil r project w = (
  λ h.
      let (ms, listed, done) =
        bind-eq-ok (r.migrations.list project.meta.namespace w)
          (λ ms. ok (sort_strings (pending_names r.conditions project ms))) h in
      (
        ms,
        listed,
        (pending_names-eq-nil r.conditions project ms).0
            ((sort_strings-eq-nil _).0 (ok_value done)),
      ),
  λ h.
      let (ms, listed, done) = h in
      rw (listed, (pending_names-eq-nil r.conditions project ms).1 done)
        (ap ok ((sort_strings-eq-nil []).1 refl)),
)
  where
    ok_value : {x y : List String} → ◌≡◌ {A = Outcome (List String)} (ok x) (ok y) → x ≡ y
    ok_value h = cc

-- Each status of the Project that says "not ready" and leaves the rest as it was keeps `P`.
abbrev pub NotReadyKeeps : {W : Type 0} → Reconciler W → (W → Type 0) → Project → Type 0
NotReadyKeeps r P project =
    (reason message : String) (latest : Project)
    → Keeps P (
        r.projects.update_status (
          project_conditioned.copy_status
            (set_not_ready project_conditioned r.conditions project reason message) latest))

module _ {W : Type 0} (r : Reconciler W) {P : W → Type 0} (project : Project)
    (writes : NotReadyKeeps r P project) where
  Keeps-fail : (reason : String) (e : Error) → Keeps P (fail (status r) project reason e)
  unfolding fail
  Keeps-fail reason e =
      Keeps-note_not_ready (status r) project reason e.text _ (writes reason e.text) (Keeps-raise e)

  Keeps-wait :
      (n : ℕ) (reason message : String) → Keeps P (wait (status r) n project reason message)
  unfolding wait
  Keeps-wait n reason message =
      Keeps-note_not_ready (status r) project reason message _ (writes reason message)
        (Keeps-pure _)

  module _ (migrations : WritesKeep r.migrations P)
      (pending : (v : W) → P v → pending_migrations r project v ≢ ok []) where
    Keeps-await_migrations : (db : ResolvedDatabase) → Keeps P (await_migrations r project db)
    unfolding await_migrations with_pending
    Keeps-await_migrations db =
        Keeps-read (pending_migrations r project) _ _ (Keeps-fail "MigrationsListFailed") by_names
      where
        by_names :
            (w : W) (names : List String)
            → P w
            → pending_migrations r project w ≡ ok names
            → P (with_pending r project db names w).1
        by_names w [] p listed = absurd (pending w p listed)
        by_names w (name ∷ more) p listed = (Keeps-wait r.requeue_interval _ _).at w p

    Keeps-prepare : (db : ResolvedDatabase) → Keeps P (prepare r project db)
    unfolding prepare ensure_migration
    Keeps-prepare db =
        Keeps-attempt _ _ _
          (Keeps-ensure_wanted migration_object r.machinery r.migrations r.same_migration migrations
            mutate_migration _ _ _ _ _)
          (Keeps-fail "MigrationFailed") (λ _. Keeps-await_migrations db)

    Keeps-reconcile_found : Keeps P (reconcile_found r project)
    unfolding reconcile_found with_database
    Keeps-reconcile_found =
        Keeps-attempt _ _ _
          (Keeps-reads (λ w.
            resolve_ref r.conditions r.databases project.spec.database_ref project.meta.namespace
              w))
          (Keeps-fail "DatabaseResolutionFailed") by_database
      where
        by_database : (found : Option ResolvedDatabase) → Keeps P (with_database r project found)
        by_database none = Keeps-wait r.requeue_interval _ _
        by_database (some db) = Keeps-prepare db

pub reconcile-project :
    {W : Type 0} (r : Reconciler W) (namespace name : String) (w : W) (project : Project)
    → r.projects.get namespace name w ≡ ok project
    → reconcile r namespace name w ≡ reconcile_found r project w
unfolding reconcile
reconcile-project r namespace name w project found = rw found refl

-- As long as migrationsReady does not find that all Migrations are ready, a run for a Project
-- writes Migrations and statuses that are not ready and keep both sync hashes, and nothing else: no
-- Secret and no Job. What these writes keep, the run keeps.
pub reconcile-pending :
    {W : Type 0} (r : Reconciler W) {P : W → Type 0} (namespace name : String) (w : W)
    (project : Project)
    → r.projects.get namespace name w ≡ ok project
    → WritesKeep r.migrations P
    → NotReadyKeeps r P project
    → ((v : W) → P v → pending_migrations r project v ≢ ok [])
    → P w
    → P (reconcile r namespace name w).1
reconcile-pending r {P} namespace name w project found migrations writes pending p =
    rw (reconcile-project r namespace name w project found)
      ((Keeps-reconcile_found r project writes migrations pending).at w p)
