-- ===== src/Controller/Project/Run.antt =====
-- Reconcile of internal/controller/project/controller.go.
use supabase_kubernetes.Api.Common.{ResolvedDatabase}
use supabase_kubernetes.Api.Projects.{Project}
use supabase_kubernetes.Controller.Common.{ReconcileResult, fail, finished, wait}
use supabase_kubernetes.Controller.Project.{
  Reconciler, db_password_value, ensure_jwt_secret, ensure_keys_secret, ensure_migration,
  mark_ready, pending_migrations, status,
}
use supabase_kubernetes.Controller.Project.Sync.{sync_jwt, sync_password}
use supabase_kubernetes.Database.{resolve_ref}
use supabase_kubernetes.Go.Exec.{Exec, attempt, pure, raise}
use supabase_kubernetes.Go.Strings.{join_names}
use supabase_kubernetes.Prelude.{List, Option, String, [], concat, if◌then◌else◌, none, some, ◌∷◌}
use supabase_kubernetes.Reconciler.Ensure.{is_not_found}

module _ {W : Type 0} (r : Reconciler W) where
  -- from getDBPasswordValue on
  unfoldable pub sync : Project → ResolvedDatabase → Exec W ReconcileResult
  sync project db =
      attempt (λ w. (db_password_value r project.meta.namespace db w, w))
        (fail (status r) project "DBPasswordValueFailed")
        (λ password.
          sync_jwt r db password project
            λ synced. sync_password r db password synced (mark_ready r))

  -- from ensureJWTSecret on
  unfoldable pub ensure_secrets : Project → ResolvedDatabase → Exec W ReconcileResult
  ensure_secrets project db =
      attempt (ensure_jwt_secret r project) (fail (status r) project "JWTSecretFailed") (λ _.
        attempt (ensure_keys_secret r project) (fail (status r) project "KeysSecretFailed")
          (λ _. sync project db))

  -- once the names of the Migrations that are not ready are known
  unfoldable pub with_pending : Project → ResolvedDatabase → List String → Exec W ReconcileResult
  with_pending project db [] = ensure_secrets project db
  with_pending project db (name ∷ names) =
      wait (status r) r.requeue_interval project "MigrationsNotReady"
        (concat ("Waiting for migrations to be ready: " ∷ join_names (name ∷ names) ∷ []))

  -- from migrationsReady on
  unfoldable pub await_migrations : Project → ResolvedDatabase → Exec W ReconcileResult
  await_migrations project db =
      attempt (λ w. (pending_migrations r project w, w))
        (fail (status r) project "MigrationsListFailed") (with_pending project db)

  -- once the database is resolved
  unfoldable pub prepare : Project → ResolvedDatabase → Exec W ReconcileResult
  prepare project db =
      attempt (ensure_migration r project) (fail (status r) project "MigrationFailed")
        (λ _. await_migrations project db)

  -- once the reference is resolved
  unfoldable pub with_database : Project → Option ResolvedDatabase → Exec W ReconcileResult
  with_database project none =
      wait (status r) r.requeue_interval project "DatabaseNotReady"
        "Referenced database is not ready"
  with_database project (some db) = prepare project db

  unfoldable pub reconcile_found : Project → Exec W ReconcileResult
  reconcile_found project =
      attempt
        (λ w. (
          resolve_ref r.conditions r.databases project.spec.database_ref project.meta.namespace w,
          w,
        ))
        (fail (status r) project "DatabaseResolutionFailed") (with_database project)

  unfoldable pub reconcile : (namespace name : String) → Exec W ReconcileResult
  reconcile namespace name =
      attempt (λ w. (r.projects.get namespace name w, w))
        (λ e. if is_not_found e then pure finished else raise e) reconcile_found
