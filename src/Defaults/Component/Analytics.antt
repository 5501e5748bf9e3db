-- ===== src/Defaults/Component/Analytics.antt =====
-- internal/defaults/analytics
use supabase_kubernetes.Api.Common.{ResolvedDatabase}
use supabase_kubernetes.Defaults.Component.{
  built_deployment, built_service, password_env_var, replicas_or_one, service_url,
}
use supabase_kubernetes.Defaults.Context.{
  Context, Tools, component_labels, component_name, selector_labels,
}
use supabase_kubernetes.Defaults.Images.{default_analytics_image, pull_if_not_present}
use supabase_kubernetes.Defaults.Shapes.{
  container_port, from_int, http_probe, opaque_secret, pod_template, probe, tcp_port,
}
use supabase_kubernetes.Go.Exec.{Exec, attempt, pure, raise}
use supabase_kubernetes.Go.GoMap.{GoMap, literal}
use supabase_kubernetes.Go.Outcome.{Outcome, ok, panic, wrap}
use supabase_kubernetes.Go.Strconv.{itoa}
use supabase_kubernetes.Go.Strings.{has_char}
use supabase_kubernetes.Helper.Env.{env_var, env_var_from_secret}
use supabase_kubernetes.Helper.Env.Merge.{merge_env_vars}
use supabase_kubernetes.Helper.Random.{Random, generate_random_hex}
use supabase_kubernetes.Kube.Core.{Secret, Service}
use supabase_kubernetes.Kube.Meta.{object_meta}
use supabase_kubernetes.Kube.Pod.{Container, EnvVar, Probe}
use supabase_kubernetes.Kube.Workload.{Deployment}
use supabase_kubernetes.Prelude.{
  List, Option, String, [], concat, if◌then◌else◌, none, some, ℕ, ◌∷◌,
}
use supabase_kubernetes.Reconciler.Mutate.Pods.{blank_container}

abbrev pub default_analytics_port : ℕ
default_analytics_port = 4000

unfoldable pub analytics_labels : Tools → Context → GoMap String
analytics_labels t ctx = component_labels t ctx "Analytics" "analytics" "analytics" "analytics"

unfoldable pub analytics_selector_labels : Tools → Context → GoMap String
analytics_selector_labels t ctx =
    selector_labels t ctx "Analytics" "analytics" "analytics" "analytics"

unfoldable pub analytics_service_name : Tools → Context → String
analytics_service_name t ctx = component_name t ctx "Analytics" "analytics"

unfoldable pub analytics_deployment_name : Tools → Context → String
analytics_deployment_name t ctx = analytics_service_name t ctx

unfoldable pub analytics_service : Tools → Context → Outcome (Option Service)
analytics_service t ctx = elim ctx.spec.analytics [
  | none ↦ ok none
  | some analytics ↦
      built_service t
        (object_meta (analytics_service_name t ctx) ctx.project.meta.namespace
          (analytics_labels t ctx))
        (analytics_selector_labels t ctx)
        (tcp_port "analytics" default_analytics_port (from_int default_analytics_port) ∷ [])
        analytics.service
]

unfoldable pub analytics_auth_secret_name : Tools → Context → String
analytics_auth_secret_name t ctx = component_name t ctx "Analytics" "analytics-auth"

-- the texts of url.URL
pub record UrlText : Type 0 where
  -- `(&url.URL{Scheme, User: url.UserPassword(user, password), Host, Path}).String()`
  pub url_string : (scheme user password host path : String) → String

-- net.JoinHostPort: a host that holds a colon is put in brackets.
unfoldable pub join_host_port : String → String → String
join_host_port host port =
    if has_char b':' host
    then concat ("[" ∷ host ∷ "]:" ∷ port ∷ [])
    else concat (host ∷ ":" ∷ port ∷ [])

-- AnalyticsAuthSecret
unfoldable pub analytics_auth_secret :
    {W : Type 0} → Random W → UrlText → Tools → Context → ResolvedDatabase → String → Exec W Secret
unfolding join_host_port
analytics_auth_secret rand u t ctx db password =
    attempt (generate_random_hex rand 32) (λ e. raise (wrap "generating analytics public token" e))
      λ public_token.
        attempt (generate_random_hex rand 32)
          (λ e. raise (wrap "generating analytics private token" e))
          λ private_token. pure (
            opaque_secret
              (object_meta (analytics_auth_secret_name t ctx) ctx.project.meta.namespace
                (analytics_labels t ctx))
              (literal (
                ("public-access-token", public_token)
                ∷ ("private-access-token", private_token)
                ∷ (
                  "url",
                  u.url_string "postgresql" db.user password (join_host_port db.host (itoa db.port))
                      "/_supabase",
                )
                ∷ [])))

-- URL
unfoldable pub analytics_url : Tools → Context → String
analytics_url t ctx = service_url t ctx (analytics_service_name t ctx) default_analytics_port

unfoldable pub analytics_env_vars : Tools → Context → ResolvedDatabase → List EnvVar
analytics_env_vars t ctx db =
    env_var "LOGFLARE_NODE_HOST" "127.0.0.1"
    ∷ env_var "DB_USERNAME" db.user
    ∷ env_var "DB_DATABASE" "_supabase"
    ∷ env_var "DB_HOSTNAME" db.host
    ∷ env_var "DB_PORT" (itoa db.port)
    ∷ password_env_var "DB_PASSWORD" db
    ∷ env_var "DB_SCHEMA" "_analytics"
    ∷ env_var "LOGFLARE_SINGLE_TENANT" "true"
    ∷ env_var "LOGFLARE_SUPABASE_MODE" "true"
    ∷ env_var_from_secret "LOGFLARE_PUBLIC_ACCESS_TOKEN" (analytics_auth_secret_name t ctx)
        "public-access-token"
    ∷ env_var_from_secret "LOGFLARE_PRIVATE_ACCESS_TOKEN" (analytics_auth_secret_name t ctx)
        "private-access-token"
    ∷ env_var "LOGFLARE_FEATURE_FLAG_OVERRIDE" "multibackend=true"
    ∷ env_var_from_secret "POSTGRES_BACKEND_URL" (analytics_auth_secret_name t ctx) "url"
    ∷ env_var "POSTGRES_BACKEND_SCHEMA" "_analytics"
    ∷ []

-- `probe(threshold)`
unfoldable pub analytics_probe : ℕ → Probe
analytics_probe threshold = probe (http_probe "/health" (from_int 4000) "") 0 5 5 threshold

unfoldable pub build_analytics_container : List EnvVar → Container
unfolding analytics_probe
build_analytics_container env = record (blank_container "analytics") {
  image = default_analytics_image;
  image_pull_policy = pull_if_not_present;
  env = env;
  ports = container_port "analytics" 4000 "" ∷ [];
  startup_probe = some (analytics_probe 16);
  readiness_probe = some (analytics_probe 3);
  liveness_probe = some (analytics_probe 10);
}

-- A missing AnalyticsSpec makes the source panic.
unfoldable pub analytics_deployment :
    Tools → Context → ResolvedDatabase → Outcome (Option Deployment)
unfolding analytics_env_vars build_analytics_container
analytics_deployment t ctx db = elim ctx.spec.analytics [
  | none ↦ panic
  | some analytics ↦
      built_deployment t
        (object_meta (analytics_deployment_name t ctx) ctx.project.meta.namespace
          (analytics_labels t ctx))
        (replicas_or_one analytics.replicas) (analytics_selector_labels t ctx)
        (pod_template (analytics_labels t ctx)
          (build_analytics_container (merge_env_vars (analytics_env_vars t ctx db) analytics.config)
            ∷ [])
          [])
        analytics.pod
]
