-- ===== src/Controller/Project.antt =====
-- internal/controller/project/controller.go: the steps of a run.
pub mod Sync
pub mod Run
pub mod Pending
pub mod Ready
pub mod Success
use supabase_kubernetes.Api.Common.{ResolvedDatabase, database_ref_eq}
use supabase_kubernetes.Api.Databases.{SingleDatabase}
use supabase_kubernetes.Api.Migrations.{Migration, migration_object}
use supabase_kubernetes.Api.Projects.{Project, project_conditioned}
use supabase_kubernetes.Controller.Common.{
  ReconcileResult, StatusWriter, ensure_built, ensure_wanted, finished, put_status,
}
use supabase_kubernetes.Defaults.Assets.{Digest}
use supabase_kubernetes.Defaults.Project.{
  jwt_secret_keys, jwt_secret_name, keys_secret_keys, keys_secret_name, project_migration_name,
}
use supabase_kubernetes.Defaults.Project.Sync.{sync_jwt_job_name, sync_password_job_name}
use supabase_kubernetes.Go.Exec.{Exec, attempt, pure, raise, wrapping}
use supabase_kubernetes.Go.GoMap.{index}
use supabase_kubernetes.Go.Outcome.{Outcome, err, errorf, ok}
use supabase_kubernetes.Go.Pure.{wrapped, ◌>>=◌}
use supabase_kubernetes.Go.Strings.{sort_strings}
use supabase_kubernetes.Kube.Client.{Client, Machinery}
use supabase_kubernetes.Kube.Condition.{Conditions}
use supabase_kubernetes.Kube.Core.{Secret}
use supabase_kubernetes.Kube.Objects.{job_object, secret_object}
use supabase_kubernetes.Kube.Workload.{Job}
use supabase_kubernetes.Prelude.{
  Bool, List, Option, String, [], concat, if◌then◌else◌, none, not, some, ℕ, ◌∷◌,
}
use supabase_kubernetes.Reconciler.Mutate.Simple.{mutate_migration, mutate_secret}
use supabase_kubernetes.Reconciler.Mutate.Workloads.{mutate_job}
use supabase_kubernetes.Reconciler.Status.{condition_type_ready, set_ready}

-- The Reconciler with its clients, and what it takes from internal/defaults/project.
pub record Reconciler (W : Type 0) : Type 0 where
  pub machinery : Machinery W
  pub conditions : Conditions
  pub projects : Client W Project
  pub databases : Client W SingleDatabase
  pub migrations : Client W Migration
  pub secrets : Client W Secret
  pub jobs : Client W Job
  -- equality.Semantic.DeepEqual on statuses and on whole objects
  pub same_status : Project → Project → Bool
  pub same_migration : Migration → Migration → Bool
  pub same_secret : Secret → Secret → Bool
  pub same_job : Job → Job → Bool
  pub build_migration : Project → Option Migration
  pub build_jwt_secret : Project → Exec W Secret
  pub build_keys_secret : Project → Exec W Secret
  pub build_sync_jwt_job : Project → ResolvedDatabase → Outcome (Option Job)
  pub build_sync_password_job : Project → ResolvedDatabase → Outcome (Option Job)
  pub digest : Digest
  pub requeue_interval : ℕ

-- the loop of migrationsReady
unfoldable pub pending_names : Conditions → Project → List Migration → List String
pending_names cs project [] = []
pending_names cs project (m ∷ ms) =
    let rest = pending_names cs project ms in
    if not (database_ref_eq m.spec.database_ref project.spec.database_ref)
    then rest
    else if cs.is_status_condition_true m.status.conditions condition_type_ready
    then rest
    else m.meta.name ∷ rest

-- the value of getDBPasswordValue, once the Secret is read
unfoldable pub password_value : ResolvedDatabase → Secret → Outcome String
password_value db secret = elim (index secret.data_map db.password_ref.key) [
  | none ↦ err (
      errorf
        (concat ("database password secret key \"" ∷ db.password_ref.key ∷ "\" not found" ∷ [])))
  | some value ↦ ok value
]

module _ {W : Type 0} (r : Reconciler W) where
  abbrev pub status : StatusWriter W Project
  status = record {
    machinery = r.machinery;
    conditions = r.conditions;
    conditioned = project_conditioned;
    client = r.projects;
    same_status = r.same_status;
  }

  -- ensureMigration1
  unfoldable pub ensure_migration : Project → Exec W (Unit {0})
  ensure_migration project =
      ensure_wanted migration_object r.machinery r.migrations r.same_migration mutate_migration
        "migration" (project_migration_name project) project.meta.namespace
        (r.build_migration project) project.meta

  -- migrationsReady: the sorted names of the Migrations that are not ready
  unfoldable pub pending_migrations : Project → W → Outcome (List String)
  pending_migrations project w = do
    migrations ← r.migrations.list project.meta.namespace w
    ok (sort_strings (pending_names r.conditions project migrations))

  unfoldable pub ensure_secret :
      String → List String → String → Exec W Secret → Project → Exec W (Unit {0})
  ensure_secret kind keys name built project =
      attempt (wrapping (concat ("building " ∷ kind ∷ [])) built) raise (λ secret.
        ensure_wanted secret_object r.machinery r.secrets r.same_secret (mutate_secret keys) kind
          name project.meta.namespace (some secret) project.meta)

  unfoldable pub ensure_jwt_secret : Project → Exec W (Unit {0})
  unfolding ensure_secret
  ensure_jwt_secret project =
      ensure_secret "JWT secret" jwt_secret_keys (jwt_secret_name project)
        (r.build_jwt_secret project) project

  unfoldable pub ensure_keys_secret : Project → Exec W (Unit {0})
  unfolding ensure_secret
  ensure_keys_secret project =
      ensure_secret "keys secret" keys_secret_keys (keys_secret_name project)
        (r.build_keys_secret project) project

  unfoldable pub ensure_sync_jwt_job : Project → ResolvedDatabase → Exec W (Unit {0})
  ensure_sync_jwt_job project db =
      ensure_built job_object r.machinery r.jobs r.same_job mutate_job "sync-jwt job"
        (sync_jwt_job_name project) project.meta.namespace (r.build_sync_jwt_job project db)
        project.meta

  unfoldable pub ensure_sync_password_job : Project → ResolvedDatabase → Exec W (Unit {0})
  ensure_sync_password_job project db =
      ensure_built job_object r.machinery r.jobs r.same_job mutate_job "sync-password job"
        (sync_password_job_name project) project.meta.namespace
        (r.build_sync_password_job project db) project.meta

  -- getDBPasswordValue
  unfoldable pub db_password_value : String → ResolvedDatabase → W → Outcome String
  db_password_value namespace db w = do
    secret ←
        wrapped "getting database password secret" (r.secrets.get namespace db.password_ref.name w)
    password_value db secret

  unfoldable pub ready_project : Project → Project
  ready_project project =
      set_ready project_conditioned r.conditions project "ReconcileSucceeded"
        "All resources reconciled successfully"

  unfoldable pub mark_ready : Project → Exec W ReconcileResult
  mark_ready project =
      attempt (put_status status (ready_project project)) raise (λ _. pure finished)
