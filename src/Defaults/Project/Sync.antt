-- ===== src/Defaults/Project/Sync.antt =====
-- The Jobs that write a Project's JWT settings and passwords to the database, and the hashes that
-- say what they have written (helpers.go, sync_jwt_job.go and sync_password_job.go).
use supabase_kubernetes.Api.Common.{ResolvedDatabase}
use supabase_kubernetes.Api.Projects.{Project}
use supabase_kubernetes.Defaults.Assets.{Assets, Digest, job_pod, operator_job, simple_container}
use supabase_kubernetes.Defaults.Images.{default_postgres_image}
use supabase_kubernetes.Defaults.Project.{project_labels}
use supabase_kubernetes.Go.Outcome.{Outcome, ok, panic}
use supabase_kubernetes.Go.Pure.{◌>>=◌}
use supabase_kubernetes.Go.Strconv.{itoa}
use supabase_kubernetes.Helper.Env.{env_var, env_var_from_secret}
use supabase_kubernetes.Kube.Meta.{object_meta}
use supabase_kubernetes.Kube.Pod.{Container, EnvVar}
use supabase_kubernetes.Kube.Workload.{Job}
use supabase_kubernetes.Prelude.{List, Option, String, [], concat, none, some, ℕ, ◌∷◌}

-- `*project.Spec.JWTExpSec`, which panics at a nil pointer
abbrev pub jwt_exp_sec : Project → Outcome ℕ
jwt_exp_sec project = elim project.spec.jwt_exp_sec [ none ↦ panic | some n ↦ ok n ]

unfoldable pub compute_password_sync_hash : Digest → ResolvedDatabase → String → String
compute_password_sync_hash digest db db_password = digest (
    concat (
      "supabase-password-sync-v2\0"
      ∷ db.db_name
      ∷ "\0"
      ∷ db.user
      ∷ "\0"
      ∷ db.host
      ∷ "\0"
      ∷ itoa db.port
      ∷ "\0"
      ∷ db_password
      ∷ []))

unfoldable pub compute_jwt_sync_hash : Digest → Project → ResolvedDatabase → String → Outcome String
unfolding compute_password_sync_hash
compute_jwt_sync_hash digest project db db_password = do
  seconds ← jwt_exp_sec project
  ok (digest (concat (compute_password_sync_hash digest db db_password ∷ "\0" ∷ itoa seconds ∷ [])))

unfoldable pub sync_jwt_job_name : Project → String
sync_jwt_job_name project = concat (project.meta.name ∷ "-sync-jwt" ∷ [])

unfoldable pub sync_password_job_name : Project → String
sync_password_job_name project = concat (project.meta.name ∷ "-sync-password" ∷ [])

unfoldable pub build_sync_jwt_env_vars : Project → ResolvedDatabase → Outcome (List EnvVar)
build_sync_jwt_env_vars project db = do
  seconds ← jwt_exp_sec project
  ok (
      env_var "PGHOST" db.host
      ∷ env_var "PGPORT" (itoa db.port)
      ∷ env_var "PGUSER" db.user
      ∷ env_var_from_secret "PGPASSWORD" db.password_ref.name db.password_ref.key
      ∷ env_var "PGDATABASE" db.db_name
      ∷ env_var "JWT_EXP" (itoa seconds)
      ∷ [])

unfoldable pub build_sync_password_env_vars : ResolvedDatabase → List EnvVar
build_sync_password_env_vars db =
    env_var "PGHOST" db.host
    ∷ env_var "PGPORT" (itoa db.port)
    ∷ env_var "PGUSER" db.user
    ∷ env_var_from_secret "PGPASSWORD" db.password_ref.name db.password_ref.key
    ∷ env_var "PGDATABASE" "_supabase"
    ∷ env_var "DB_ADMIN_USER" db.user
    ∷ env_var "DB_SRV_NAME" db.host
    ∷ env_var "DB_SRV_PORT" (itoa db.port)
    ∷ []

-- buildSyncJWTContainer and buildSyncPasswordContainer
abbrev sync_container : String → String → List EnvVar → Container
sync_container name script env =
    simple_container name default_postgres_image ("/bin/sh" ∷ "-c" ∷ []) (script ∷ []) env

unfoldable pub sync_jwt_job : Assets → Project → ResolvedDatabase → Outcome (Option Job)
unfolding sync_jwt_job_name build_sync_jwt_env_vars project_labels
sync_jwt_job assets project db = do
  env ← build_sync_jwt_env_vars project db
  ok (
      some (
        operator_job
          (object_meta (sync_jwt_job_name project) project.meta.namespace (project_labels project))
          (job_pod (project_labels project)
            (sync_container "sync-jwt" assets.project_sync_jwt_script env) [])))

unfoldable pub sync_password_job : Assets → Project → ResolvedDatabase → Outcome (Option Job)
unfolding sync_password_job_name build_sync_password_env_vars project_labels
sync_password_job assets project db = ok (
    some (
      operator_job
        (object_meta (sync_password_job_name project) project.meta.namespace
          (project_labels project))
        (job_pod (project_labels project)
          (sync_container "sync-password" assets.project_sync_password_script
            (build_sync_password_env_vars db))
          [])))
