-- ===== src/Defaults/Component/Rest.antt =====
-- internal/defaults/rest
use supabase_kubernetes.Api.Common.{ResolvedDatabase}
use supabase_kubernetes.Api.Components.{RestSpec}
use supabase_kubernetes.Defaults.Component.{
  built_deployment, built_service, database_url, jwt_exp_sec, password_env_var, replicas_or_one,
}
use supabase_kubernetes.Defaults.Context.{
  Context, Tools, component_labels, component_name, postgrest_env_vars, selector_labels,
}
use supabase_kubernetes.Defaults.Images.{default_rest_image, pull_if_not_present}
use supabase_kubernetes.Defaults.Project.{jwt_secret_name}
use supabase_kubernetes.Defaults.Shapes.{container_port, from_int, pod_template, probe, tcp_port}
use supabase_kubernetes.Go.GoMap.{GoMap}
use supabase_kubernetes.Go.Outcome.{Outcome, ok}
use supabase_kubernetes.Go.Pure.{◌>>=◌}
use supabase_kubernetes.Go.Strconv.{itoa}
use supabase_kubernetes.Helper.Env.{env_var, env_var_from_secret}
use supabase_kubernetes.Helper.Env.Merge.{merge_env_vars}
use supabase_kubernetes.Kube.Core.{Service}
use supabase_kubernetes.Kube.Meta.{object_meta}
use supabase_kubernetes.Kube.Pod.{Container, EnvVar, Handler, exec}
use supabase_kubernetes.Kube.Workload.{Deployment}
use supabase_kubernetes.Prelude.{List, Option, String, [], none, some, ℕ, ◌++◌, ◌∷◌}
use supabase_kubernetes.Reconciler.Mutate.Pods.{blank_container}

abbrev pub default_rest_port : ℕ
default_rest_port = 3000

unfoldable pub rest_labels : Tools → Context → GoMap String
rest_labels t ctx = component_labels t ctx "Rest" "rest" "rest" "rest"

unfoldable pub rest_selector_labels : Tools → Context → GoMap String
rest_selector_labels t ctx = selector_labels t ctx "Rest" "rest" "rest" "rest"

unfoldable pub rest_service_name : Tools → Context → String
rest_service_name t ctx = component_name t ctx "Rest" "rest"

unfoldable pub rest_deployment_name : Tools → Context → String
rest_deployment_name t ctx = component_name t ctx "Rest" "rest"

unfoldable pub rest_service : Tools → Context → Outcome (Option Service)
rest_service t ctx = elim ctx.spec.rest [
  | none ↦ ok none
  | some rest ↦
      built_service t
        (object_meta (rest_service_name t ctx) ctx.project.meta.namespace (rest_labels t ctx))
        (rest_selector_labels t ctx)
        (tcp_port "rest" default_rest_port (from_int default_rest_port) ∷ []) rest.service
]

abbrev pub default_rest_admin_port : ℕ
default_rest_admin_port = 3001

unfoldable pub build_rest_env_vars : Context → RestSpec → ResolvedDatabase → Outcome (List EnvVar)
build_rest_env_vars ctx rest db = do
  exp ← jwt_exp_sec ctx
  ok (
      merge_env_vars
        (postgrest_env_vars ctx.spec.project.postgrest
          ++ password_env_var "PGRST_DB_PASSWORD" db
            ∷ env_var "PGRST_DB_URI"
                (database_url "postgres://authenticator:$(PGRST_DB_PASSWORD)" db)
            ∷ env_var "PGRST_DB_ANON_ROLE" "anon"
            ∷ env_var "PGRST_ADMIN_SERVER_PORT" (itoa default_rest_admin_port)
            ∷ env_var "PGRST_ADMIN_SERVER_HOST" "localhost"
            ∷ env_var_from_secret "PGRST_JWT_SECRET" (jwt_secret_name ctx.project) "jwt-jwks"
            ∷ env_var "PGRST_DB_USE_LEGACY_GUCS" "false"
            ∷ env_var "PGRST_APP_SETTINGS_JWT_EXP" (itoa exp)
            ∷ [])
        rest.config)

unfoldable pub rest_probe_handler : Handler
rest_probe_handler = exec ("postgrest" ∷ "--ready" ∷ [])

-- the container with its image, pull policy, ports and probes
unfoldable pub build_rest_container : List EnvVar → Container
unfolding rest_probe_handler
build_rest_container env = record (blank_container "rest") {
  image = default_rest_image;
  image_pull_policy = pull_if_not_present;
  command = "postgrest" ∷ [];
  env = env;
  ports = container_port "rest" default_rest_port "TCP" ∷ [];
  liveness_probe = some (probe rest_probe_handler 5 5 5 3);
  readiness_probe = some (probe rest_probe_handler 5 5 5 3);
  startup_probe = some (probe rest_probe_handler 5 5 5 10);
}

unfoldable pub rest_deployment : Tools → Context → ResolvedDatabase → Outcome (Option Deployment)
rest_deployment t ctx db = elim ctx.spec.rest [
  | none ↦ ok none
  | some rest ↦ build_rest_env_vars ctx rest db >>= λ env.
      built_deployment t
        (object_meta (rest_deployment_name t ctx) ctx.project.meta.namespace (rest_labels t ctx))
        (replicas_or_one rest.replicas) (rest_selector_labels t ctx)
        (pod_template (rest_labels t ctx) (build_rest_container env ∷ []) []) rest.pod
]
