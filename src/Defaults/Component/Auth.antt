-- ===== src/Defaults/Component/Auth.antt =====
-- internal/defaults/auth
use supabase_kubernetes.Api.Common.{ResolvedDatabase}
use supabase_kubernetes.Api.Components.{AuthSpec}
use supabase_kubernetes.Defaults.Component.{
  built_deployment, built_service, database_url, jwt_exp_sec, password_env_var, replicas_or_one,
}
use supabase_kubernetes.Defaults.Context.{
  Context, Tools, component_labels, component_name, selector_labels,
}
use supabase_kubernetes.Defaults.Images.{default_auth_image, pull_if_not_present}
use supabase_kubernetes.Defaults.Project.{jwt_secret_name}
use supabase_kubernetes.Defaults.Shapes.{container_port, from_int, pod_template, probe, tcp_port}
use supabase_kubernetes.Go.GoMap.{GoMap}
use supabase_kubernetes.Go.Outcome.{Outcome, ok}
use supabase_kubernetes.Go.Pure.{◌>>=◌}
use supabase_kubernetes.Go.Strconv.{itoa}
use supabase_kubernetes.Go.Strings.{trim_right}
use supabase_kubernetes.Helper.Env.{env_var, env_var_from_secret}
use supabase_kubernetes.Helper.Env.Merge.{merge_env_vars}
use supabase_kubernetes.Kube.Core.{Service}
use supabase_kubernetes.Kube.Meta.{object_meta}
use supabase_kubernetes.Kube.Pod.{Container, EnvVar, Handler, exec}
use supabase_kubernetes.Kube.Workload.{Deployment}
use supabase_kubernetes.Prelude.{List, Option, String, [], concat, none, some, ℕ, ◌∷◌}
use supabase_kubernetes.Reconciler.Mutate.Pods.{blank_container}

abbrev pub default_auth_port : ℕ
default_auth_port = 9999

unfoldable pub auth_labels : Tools → Context → GoMap String
auth_labels t ctx = component_labels t ctx "Auth" "auth" "auth" "auth"

unfoldable pub auth_selector_labels : Tools → Context → GoMap String
auth_selector_labels t ctx = selector_labels t ctx "Auth" "auth" "auth" "auth"

unfoldable pub auth_service_name : Tools → Context → String
auth_service_name t ctx = component_name t ctx "Auth" "auth"

unfoldable pub auth_deployment_name : Tools → Context → String
auth_deployment_name t ctx = component_name t ctx "Auth" "auth"

-- AuthService
unfoldable pub auth_service : Tools → Context → Outcome (Option Service)
auth_service t ctx = elim ctx.spec.auth [
  | none ↦ ok none
  | some auth ↦
      built_service t
        (object_meta (auth_service_name t ctx) ctx.project.meta.namespace (auth_labels t ctx))
        (auth_selector_labels t ctx)
        (tcp_port "auth" default_auth_port (from_int default_auth_port) ∷ []) auth.service
]

unfoldable pub build_auth_env_vars : Context → AuthSpec → ResolvedDatabase → Outcome (List EnvVar)
build_auth_env_vars ctx auth db = do
  let auth_url = concat (trim_right b'/' ctx.spec.project.public_url ∷ "/auth/v1" ∷ [])
  let jwt = jwt_secret_name ctx.project
  exp ← jwt_exp_sec ctx
  ok (
      merge_env_vars
        (env_var "GOTRUE_API_HOST" "0.0.0.0"
          ∷ env_var "GOTRUE_API_PORT" (itoa default_auth_port)
          ∷ env_var "API_EXTERNAL_URL" auth_url
          ∷ env_var "GOTRUE_DB_DRIVER" "postgres"
          ∷ password_env_var "DB_PASSWORD" db
          ∷ env_var "GOTRUE_DB_DATABASE_URL"
              (database_url "postgres://supabase_auth_admin:$(DB_PASSWORD)" db)
          ∷ env_var "GOTRUE_JWT_ADMIN_ROLES" "service_role"
          ∷ env_var "GOTRUE_JWT_AUD" "authenticated"
          ∷ env_var "GOTRUE_JWT_DEFAULT_GROUP_NAME" "authenticated"
          ∷ env_var "GOTRUE_JWT_EXP" (itoa exp)
          ∷ env_var_from_secret "GOTRUE_JWT_SECRET" jwt "jwt-secret"
          ∷ env_var_from_secret "GOTRUE_JWT_KEYS" jwt "jwt-keys"
          ∷ env_var "GOTRUE_JWT_ISSUER" auth_url
          ∷ [])
        auth.config)

-- authProbeHandler
unfoldable pub auth_probe_handler : Handler
auth_probe_handler = exec (
    "wget"
    ∷ "--no-verbose"
    ∷ "--tries=1"
    ∷ "--spider"
    ∷ concat ("http://localhost:" ∷ itoa default_auth_port ∷ "/health" ∷ [])
    ∷ [])

-- buildAuthContainer with its image, pull policy, ports and probes
unfoldable pub build_auth_container : List EnvVar → Container
unfolding auth_probe_handler
build_auth_container env = record (blank_container "auth") {
  image = default_auth_image;
  image_pull_policy = pull_if_not_present;
  env = env;
  ports = container_port "auth" default_auth_port "TCP" ∷ [];
  liveness_probe = some (probe auth_probe_handler 5 5 5 3);
  readiness_probe = some (probe auth_probe_handler 5 5 5 3);
  startup_probe = some (probe auth_probe_handler 5 5 5 3);
}

-- AuthDeployment
unfoldable pub auth_deployment : Tools → Context → ResolvedDatabase → Outcome (Option Deployment)
unfolding build_auth_container
auth_deployment t ctx db = elim ctx.spec.auth [
  | none ↦ ok none
  | some auth ↦ build_auth_env_vars ctx auth db >>= λ env.
      built_deployment t
        (object_meta (auth_deployment_name t ctx) ctx.project.meta.namespace (auth_labels t ctx))
        (replicas_or_one auth.replicas) (auth_selector_labels t ctx)
        (pod_template (auth_labels t ctx) (build_auth_container env ∷ []) []) auth.pod
]
