-- ===== src/Controller/Project/Success.antt =====
-- When a run marks a Project as ready.
use supabase_kubernetes.Api.Common.{ResolvedDatabase}
use supabase_kubernetes.Api.Projects.{Project, project_conditioned}
use supabase_kubernetes.Controller.Common.{fail, finished}
use supabase_kubernetes.Controller.Common.Ends.{Avoids-fail, Avoids-wait}
use supabase_kubernetes.Controller.Project.{
  Reconciler, db_password_value, ensure_jwt_secret, ensure_keys_secret, ensure_migration,
  mark_ready, pending_migrations, ready_project, status,
}
use supabase_kubernetes.Controller.Project.Pending.{reconcile-project}
use supabase_kubernetes.Controller.Project.Ready.{
  IsSynced, mark_ready_sound, sync_jwt-eq-ok, sync_password-eq-ok,
}
use supabase_kubernetes.Controller.Project.Run.{
  await_migrations, ensure_secrets, prepare, reconcile, reconcile_found, sync, with_database,
  with_pending,
}
use supabase_kubernetes.Controller.Project.Sync.{sync_password}
use supabase_kubernetes.Database.{resolve_ref}
use supabase_kubernetes.Defaults.Project.Sync.{compute_jwt_sync_hash}
use supabase_kubernetes.Go.Exec.Inversion.{attempt-eq-ok, read-eq-ok}
use supabase_kubernetes.Go.Outcome.{ok}
use supabase_kubernetes.Prelude.{
  List, Option, String, [], ap, none, refl, some, sym, ◌∙◌, ◌∷◌, ◌≡◌, ◌≢◌,
}
use supabase_kubernetes.Reconciler.Status.Laws.{StatusKept}

module _ {W : Type 0} (r : Reconciler W) where
  -- How a run has ended in the cluster `w'`, from the password on.
  pub record IsReady (project : Project) (db : ResolvedDatabase) (w' : W) : Type 0 where
    pub password : String
    pub before : W
    pub synced : Project
    pub read : db_password_value r project.meta.namespace db before ≡ ok password
    pub same : IsSynced r project db password synced
    pub kept :
        StatusKept project_conditioned r.machinery r.projects r.same_status
          (ready_project r synced)
          w'

  compute_jwt-congr :
      (p q : Project) (db : ResolvedDatabase) (password : String)
      → p.spec ≡ q.spec
      → compute_jwt_sync_hash r.digest p db password ≡ compute_jwt_sync_hash r.digest q db password
  unfolding compute_jwt_sync_hash
  compute_jwt-congr p q db password h = rw h refl

  module _ (asks : r.requeue_interval ≢ 0) (project : Project) (db : ResolvedDatabase) where
    sync-eq-ok : (w w' : W) → sync r project db w ≡ (ok finished, w') → IsReady project db w'
    unfolding sync
    sync-eq-ok w w' run =
        let (password, read, rest) =
          read-eq-ok (db_password_value r project.meta.namespace db)
            (fail (status r) project "DBPasswordValueFailed") _ w
            (Avoids-fail (status r) project "DBPasswordValueFailed") run in
        let (p, w₁, rest₁, meta₁, spec₁, jwt₁) =
          sync_jwt-eq-ok r asks db password project
            (λ synced. sync_password r db password synced (mark_ready r)) w w' rest in
        let (q, w₂, rest₂, meta₂, spec₂, jwt₂, password₂) =
          sync_password-eq-ok r asks db password p (mark_ready r) w₁ w' rest₁ in
        record {
          password = password;
          before = w;
          synced = q;
          read = read;
          same = record {
            meta = meta₂ ∙ meta₁;
            spec = spec₂ ∙ spec₁;
            jwt_sync_hash = jwt₁ ∙ ap ok (sym jwt₂);
            password_sync_hash = password₂;
          };
          kept = mark_ready_sound r q w₂ w' rest₂;
        }

    ensure_secrets-eq-ok :
        (w w' : W) → ensure_secrets r project db w ≡ (ok finished, w') → IsReady project db w'
    unfolding ensure_secrets
    ensure_secrets-eq-ok w w' run =
        let (_, w₁, _, rest) =
          attempt-eq-ok (ensure_jwt_secret r project) (fail (status r) project "JWTSecretFailed") _
            w (Avoids-fail (status r) project "JWTSecretFailed") run in
        let (_, w₂, _, rest') =
          attempt-eq-ok (ensure_keys_secret r project) (fail (status r) project "KeysSecretFailed")
            _ w₁ (Avoids-fail (status r) project "KeysSecretFailed") rest in
        sync-eq-ok w₂ w' rest'

    with_pending-eq-ok :
        (names : List String) (w w' : W)
        → with_pending r project db names w ≡ (ok finished, w')
        → (names ≡ []) × IsReady project db w'
    unfolding with_pending
    with_pending-eq-ok [] w w' run = (refl, ensure_secrets-eq-ok w w' run)
    with_pending-eq-ok (name ∷ names) w w' run =
        absurd ((Avoids-wait (status r) r.requeue_interval project _ _ asks).at w w' run)

    prepare-eq-ok :
        (w w' : W)
        → prepare r project db w ≡ (ok finished, w')
        → ((v : W) × (pending_migrations r project v ≡ ok [])) × IsReady project db w'
    unfolding prepare await_migrations
    prepare-eq-ok w w' run =
        let (_, w₁, _, rest) =
          attempt-eq-ok (ensure_migration r project) (fail (status r) project "MigrationFailed") _ w
            (Avoids-fail (status r) project "MigrationFailed") run in
        let (names, listed, rest') =
          read-eq-ok (pending_migrations r project) (fail (status r) project "MigrationsListFailed")
            (with_pending r project db) w₁ (Avoids-fail (status r) project "MigrationsListFailed")
            rest in
        let (empty_names, ready) = with_pending-eq-ok names w₁ w' rest' in
        ((w₁, listed ∙ ap ok empty_names), ready)

  found-eq-ok :
      r.requeue_interval ≢ 0
      → (project : Project) (w w' : W) → reconcile_found r project w ≡ (ok finished, w')
      → (db : ResolvedDatabase) × (resolve_ref r.conditions r.databases project.spec.database_ref
            project.meta.namespace w
          ≡ ok (some db))
        × ((v : W) × (pending_migrations r project v ≡ ok []))
        × IsReady project db w'
  unfolding reconcile_found with_database
  found-eq-ok asks project w w' run =
      let (found, resolved, rest) =
        read-eq-ok
          (resolve_ref r.conditions r.databases project.spec.database_ref project.meta.namespace)
          (fail (status r) project "DatabaseResolutionFailed") _ w
          (Avoids-fail (status r) project "DatabaseResolutionFailed") run in
      by_database found resolved rest
    where
      by_database :
          (found : Option ResolvedDatabase)
          → resolve_ref r.conditions r.databases project.spec.database_ref project.meta.namespace w
            ≡ ok found
          → with_database r project found w ≡ (ok finished, w')
          → (db : ResolvedDatabase) × (resolve_ref r.conditions r.databases
                project.spec.database_ref project.meta.namespace w
              ≡ ok (some db))
            × ((v : W) × (pending_migrations r project v ≡ ok []))
            × IsReady project db w'
      by_database none resolved rest =
          absurd ((Avoids-wait (status r) r.requeue_interval project _ _ asks).at w w' rest)
      by_database (some db) resolved rest =
          let (migrated, ready) = prepare-eq-ok asks project db w w' rest in
          (db, resolved, migrated, ready)

-- A run for a Project that ends without error and asks for no further run, of a reconciler whose
-- interval is not zero, has resolved the database, has seen all Migrations ready and has read the
-- password, and leaves in the cluster the status of a Project that is ready, with the JWT hash and
-- the password hash of that database and password.
pub reconcile-finished :
    {W : Type 0} (r : Reconciler W) (namespace name : String) (w w' : W) (project : Project)
    → r.requeue_interval ≢ 0
    → r.projects.get namespace name w ≡ ok project
    → reconcile r namespace name w ≡ (ok finished, w')
    → (db : ResolvedDatabase) × (resolve_ref r.conditions r.databases project.spec.database_ref
          project.meta.namespace w
        ≡ ok (some db))
      × ((v : W) × (pending_migrations r project v ≡ ok []))
      × IsReady r project db w'
reconcile-finished r namespace name w w' project asks found run =
    found-eq-ok r asks project w w' (rw (reconcile-project r namespace name w project found) at run)
