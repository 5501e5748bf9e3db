-- ===== src/Defaults/Component/Studio.antt =====
-- internal/defaults/studio
use supabase_kubernetes.Api.Common.{ResolvedDatabase}
use supabase_kubernetes.Api.Components.{StudioSpec}
use supabase_kubernetes.Defaults.Component.{
  built_claim, built_service, built_stateful_set, default_envoy_port, envoy_service_name,
  password_env_var, replicas_or_one, service_url,
}
use supabase_kubernetes.Defaults.Component.Analytics.{analytics_auth_secret_name, analytics_url}
use supabase_kubernetes.Defaults.Component.Meta.{default_meta_port, meta_service_name}
use supabase_kubernetes.Defaults.Context.{
  Context, Tools, component_labels, component_name, postgrest_env_vars, selector_labels,
}
use supabase_kubernetes.Defaults.Images.{default_studio_image, pull_if_not_present}
use supabase_kubernetes.Defaults.Project.{jwt_secret_name, keys_secret_name}
use supabase_kubernetes.Defaults.Shapes.{
  claim_volume, container_port, from_int, pod_template, probe, tcp_port, volume_mount,
}
use supabase_kubernetes.Go.GoMap.{GoMap}
use supabase_kubernetes.Go.Outcome.{Outcome, ok}
use supabase_kubernetes.Go.Strconv.{itoa}
use supabase_kubernetes.Helper.Env.{env_var, env_var_from_secret}
use supabase_kubernetes.Helper.Env.Merge.{merge_env_vars}
use supabase_kubernetes.Kube.Core.{PersistentVolumeClaim, Service}
use supabase_kubernetes.Kube.Meta.{object_meta}
use supabase_kubernetes.Kube.Pod.{Container, EnvVar, Handler, Volume, exec}
use supabase_kubernetes.Kube.Workload.{StatefulSet}
use supabase_kubernetes.Prelude.{List, Option, String, [], none, some, ℕ, ◌++◌, ◌∷◌}
use supabase_kubernetes.Reconciler.Mutate.Pods.{blank_container}

abbrev pub default_studio_port : ℕ
default_studio_port = 3000

unfoldable pub studio_labels : Tools → Context → GoMap String
studio_labels t ctx = component_labels t ctx "Studio" "studio" "studio" "studio"

unfoldable pub studio_selector_labels : Tools → Context → GoMap String
studio_selector_labels t ctx = selector_labels t ctx "Studio" "studio" "studio" "studio"

unfoldable pub studio_service_name : Tools → Context → String
studio_service_name t ctx = component_name t ctx "Studio" "studio"

unfoldable pub studio_stateful_set_name : Tools → Context → String
studio_stateful_set_name t ctx = component_name t ctx "Studio" "studio"

unfoldable pub studio_service : Tools → Context → Outcome (Option Service)
studio_service t ctx = elim ctx.spec.studio [
  | none ↦ ok none
  | some studio ↦
      built_service t
        (object_meta (studio_service_name t ctx) ctx.project.meta.namespace (studio_labels t ctx))
        (studio_selector_labels t ctx)
        (tcp_port "studio" default_studio_port (from_int default_studio_port) ∷ []) studio.service
]

unfoldable pub studio_pvc_name : Tools → Context → String
studio_pvc_name t ctx = component_name t ctx "Studio" "studio-data"

unfoldable pub studio_pvc : Tools → Context → Outcome (Option PersistentVolumeClaim)
studio_pvc t ctx = elim ctx.spec.studio [
  | none ↦ ok none
  | some studio ↦
      built_claim t
        (object_meta (studio_pvc_name t ctx) ctx.project.meta.namespace (studio_labels t ctx))
        studio.storage
]

unfoldable pub build_studio_volume : Tools → Context → Volume
build_studio_volume t ctx = claim_volume "studio-data" (studio_pvc_name t ctx)

unfoldable pub studio_probe_handler : Handler
studio_probe_handler = exec (
    "node" ∷ "-e"
    ∷ "fetch('http://localhost:3000/api/platform/profile').then((r) => {if (r.status !== 200) throw new Error(r.status)})"
    ∷ [])

abbrev pub studio_snippets_mount_path : String
studio_snippets_mount_path = "/app/snippets"

-- the container with its image, pull policy, ports and probes
unfoldable pub build_studio_container : List EnvVar → Container
unfolding studio_probe_handler
build_studio_container env = record (blank_container "studio") {
  image = default_studio_image;
  image_pull_policy = pull_if_not_present;
  volume_mounts = volume_mount "studio-data" studio_snippets_mount_path "snippets" ∷ [];
  env = env;
  ports = container_port "studio" default_studio_port "TCP" ∷ [];
  liveness_probe = some (probe studio_probe_handler 20 5 10 3);
  readiness_probe = some (probe studio_probe_handler 20 5 10 3);
  startup_probe = some (probe studio_probe_handler 20 5 10 6);
}

-- the variables before those for Analytics and those of the spec
unfoldable pub studio_base_env_vars : Tools → Context → ResolvedDatabase → List EnvVar
studio_base_env_vars t ctx db =
    postgrest_env_vars ctx.spec.project.postgrest
    ++ env_var "HOSTNAME" "0.0.0.0"
      ∷ env_var "STUDIO_PG_META_URL" (service_url t ctx (meta_service_name t ctx) default_meta_port)
      ∷ env_var "POSTGRES_PORT" (itoa db.port)
      ∷ env_var "POSTGRES_HOST" db.host
      ∷ env_var "POSTGRES_DB" db.db_name
      ∷ password_env_var "POSTGRES_PASSWORD" db
      ∷ env_var "POSTGRES_USER_READ_WRITE" "postgres"
      ∷ env_var_from_secret "PG_META_CRYPTO_KEY" (keys_secret_name ctx.project) "crypto-key"
      ∷ env_var "SUPABASE_URL" (service_url t ctx (envoy_service_name t ctx) default_envoy_port)
      ∷ env_var "SUPABASE_PUBLIC_URL" ctx.spec.project.public_url
      ∷ env_var_from_secret "SUPABASE_ANON_KEY" (jwt_secret_name ctx.project) "anon-key"
      ∷ env_var_from_secret "SUPABASE_SERVICE_KEY" (jwt_secret_name ctx.project) "service-key"
      ∷ env_var_from_secret "AUTH_JWT_SECRET" (jwt_secret_name ctx.project) "jwt-secret"
      ∷ env_var_from_secret "SUPABASE_PUBLISHABLE_KEY" (jwt_secret_name ctx.project)
          "publishable-key"
      ∷ env_var_from_secret "SUPABASE_SECRET_KEY" (jwt_secret_name ctx.project) "secret-key"
      ∷ env_var "ENABLED_FEATURES_LOGS_ALL" "false"
      ∷ env_var "SNIPPETS_MANAGEMENT_FOLDER" studio_snippets_mount_path
      ∷ env_var "EDGE_FUNCTIONS_MANAGEMENT_FOLDER" "/app/edge-functions"
      ∷ []

-- what Analytics adds to the variables
unfoldable pub with_analytics : Tools → Context → List EnvVar → List EnvVar
with_analytics t ctx env = elim ctx.spec.analytics [
  | none ↦ env
  | some analytics ↦ merge_env_vars env (
      env_var "ENABLED_FEATURES_LOGS_ALL" "true"
      ∷ env_var "LOGFLARE_URL" (analytics_url t ctx)
      ∷ env_var_from_secret "LOGFLARE_PRIVATE_ACCESS_TOKEN" (analytics_auth_secret_name t ctx)
          "private-access-token"
      ∷ [])
]

unfoldable pub build_studio_env_vars : Tools → Context → StudioSpec → ResolvedDatabase → List EnvVar
unfolding studio_base_env_vars with_analytics
build_studio_env_vars t ctx studio db =
    merge_env_vars (with_analytics t ctx (studio_base_env_vars t ctx db)) studio.config

unfoldable pub studio_stateful_set :
    Tools → Context → ResolvedDatabase → Outcome (Option StatefulSet)
studio_stateful_set t ctx db = elim ctx.spec.studio [
  | none ↦ ok none
  | some studio ↦
      built_stateful_set t
        (object_meta (studio_stateful_set_name t ctx) ctx.project.meta.namespace
          (studio_labels t ctx))
        (studio_service_name t ctx) (replicas_or_one studio.replicas) (studio_selector_labels t ctx)
        (pod_template (studio_labels t ctx)
          (build_studio_container (build_studio_env_vars t ctx studio db) ∷ [])
          (build_studio_volume t ctx ∷ []))
        studio.pod
]
