-- ===== src/Defaults/Component/Realtime.antt =====
-- internal/defaults/realtime
use supabase_kubernetes.Api.Common.{ResolvedDatabase}
use supabase_kubernetes.Api.Components.{RealtimeSpec}
use supabase_kubernetes.Defaults.Component.{
  built_deployment, built_service, password_env_var, replicas_or_one,
}
use supabase_kubernetes.Defaults.Context.{
  Context, Tools, component_labels, component_name, selector_labels,
}
use supabase_kubernetes.Defaults.Images.{default_realtime_image, pull_if_not_present}
use supabase_kubernetes.Defaults.Project.{jwt_secret_name, keys_secret_name}
use supabase_kubernetes.Defaults.Shapes.{container_port, from_int, pod_template, probe, tcp_port}
use supabase_kubernetes.Go.GoMap.{GoMap}
use supabase_kubernetes.Go.Outcome.{Outcome, ok}
use supabase_kubernetes.Go.Strconv.{itoa}
use supabase_kubernetes.Helper.Env.{env_var, env_var_from_secret}
use supabase_kubernetes.Helper.Env.Merge.{merge_env_vars}
use supabase_kubernetes.Kube.Core.{Service}
use supabase_kubernetes.Kube.Meta.{object_meta}
use supabase_kubernetes.Kube.Pod.{Container, EnvVar, Handler, exec}
use supabase_kubernetes.Kube.Workload.{Deployment}
use supabase_kubernetes.Prelude.{List, Option, String, [], concat, none, some, ℕ, ◌∷◌}
use supabase_kubernetes.Reconciler.Mutate.Pods.{blank_container}

abbrev pub default_realtime_port : ℕ
default_realtime_port = 4000

unfoldable pub realtime_labels : Tools → Context → GoMap String
realtime_labels t ctx = component_labels t ctx "Realtime" "realtime" "realtime" "realtime"

unfoldable pub realtime_selector_labels : Tools → Context → GoMap String
realtime_selector_labels t ctx = selector_labels t ctx "Realtime" "realtime" "realtime" "realtime"

unfoldable pub realtime_service_name : Tools → Context → String
realtime_service_name t ctx = component_name t ctx "Realtime" "realtime"

unfoldable pub realtime_deployment_name : Tools → Context → String
realtime_deployment_name t ctx = component_name t ctx "Realtime" "realtime"

unfoldable pub realtime_service : Tools → Context → Outcome (Option Service)
realtime_service t ctx = elim ctx.spec.realtime [
  | none ↦ ok none
  | some realtime ↦
      built_service t
        (object_meta (realtime_service_name t ctx) ctx.project.meta.namespace
          (realtime_labels t ctx))
        (realtime_selector_labels t ctx)
        (tcp_port "realtime" default_realtime_port (from_int default_realtime_port) ∷ [])
        realtime.service
]

unfoldable pub build_realtime_env_vars : Context → RealtimeSpec → ResolvedDatabase → List EnvVar
build_realtime_env_vars ctx realtime db =
    merge_env_vars
      (env_var "PORT" (itoa default_realtime_port)
        ∷ env_var "DB_HOST" db.host
        ∷ env_var "DB_PORT" (itoa db.port)
        ∷ env_var "DB_USER" "supabase_admin"
        ∷ password_env_var "DB_PASSWORD" db
        ∷ env_var "DB_NAME" db.db_name
        ∷ env_var "DB_AFTER_CONNECT_QUERY" "SET search_path TO _realtime"
        ∷ env_var_from_secret "DB_ENC_KEY" (keys_secret_name ctx.project) "realtime-db-enc-key"
        ∷ env_var_from_secret "API_JWT_SECRET" (jwt_secret_name ctx.project) "jwt-secret"
        ∷ env_var_from_secret "API_JWT_JWKS" (jwt_secret_name ctx.project) "jwt-jwks"
        ∷ env_var_from_secret "SECRET_KEY_BASE" (keys_secret_name ctx.project) "secret-key-base"
        ∷ env_var_from_secret "METRICS_JWT_SECRET" (jwt_secret_name ctx.project) "jwt-secret"
        ∷ env_var "ERL_AFLAGS" "-proto_dist inet_tcp"
        ∷ env_var "DNS_NODES" "''"
        ∷ env_var "RLIMIT_NOFILE" "10000"
        ∷ env_var "APP_NAME" "realtime"
        ∷ env_var "SEED_SELF_HOST" "true"
        ∷ env_var "RUN_JANITOR" "true"
        ∷ env_var "DISABLE_HEALTHCHECK_LOGGING" "true"
        ∷ env_var_from_secret "ANON_KEY" (jwt_secret_name ctx.project) "anon-key"
        ∷ [])
      realtime.config

unfoldable pub realtime_probe_handler : Handler
realtime_probe_handler = exec (
    "/bin/sh"
    ∷ "-c"
    ∷ concat (
        "curl -sSfL --head -o /dev/null -H \"Authorization: Bearer ${ANON_KEY}\" http://localhost:"
        ∷ itoa default_realtime_port
        ∷ "/api/tenants/realtime-dev/health"
        ∷ [])
    ∷ [])

-- the container with its image, pull policy, ports and probes
unfoldable pub build_realtime_container : List EnvVar → Container
unfolding realtime_probe_handler
build_realtime_container env = record (blank_container "realtime") {
  image = default_realtime_image;
  image_pull_policy = pull_if_not_present;
  env = env;
  ports = container_port "realtime" default_realtime_port "TCP" ∷ [];
  liveness_probe = some (probe realtime_probe_handler 10 30 5 3);
  readiness_probe = some (probe realtime_probe_handler 5 5 5 3);
  startup_probe = some (probe realtime_probe_handler 10 30 5 3);
}

unfoldable pub realtime_deployment :
    Tools → Context → ResolvedDatabase → Outcome (Option Deployment)
realtime_deployment t ctx db = elim ctx.spec.realtime [
  | none ↦ ok none
  | some realtime ↦
      built_deployment t
        (object_meta (realtime_deployment_name t ctx) ctx.project.meta.namespace
          (realtime_labels t ctx))
        (replicas_or_one realtime.replicas) (realtime_selector_labels t ctx)
        (pod_template (realtime_labels t ctx)
          (build_realtime_container (build_realtime_env_vars ctx realtime db) ∷ []) [])
        realtime.pod
]
