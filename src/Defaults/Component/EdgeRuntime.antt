-- ===== src/Defaults/Component/EdgeRuntime.antt =====
-- internal/defaults/edgeruntime
use supabase_kubernetes.Api.Common.{ResolvedDatabase}
use supabase_kubernetes.Api.Components.{EdgeRuntimeSpec}
use supabase_kubernetes.Defaults.Component.{
  built_deployment, built_service, database_url, default_envoy_port, envoy_service_name,
  password_env_var, replicas_or_one, service_url,
}
use supabase_kubernetes.Defaults.Context.{
  Context, Tools, component_labels, component_name, selector_labels,
}
use supabase_kubernetes.Defaults.Images.{default_edge_runtime_image, pull_if_not_present}
use supabase_kubernetes.Defaults.Project.{jwt_secret_name}
use supabase_kubernetes.Defaults.Shapes.{
  config_map_volume, container_port, empty_dir_volume, from_int, pod_template, probe, read_only,
  tcp_port, volume_mount,
}
use supabase_kubernetes.Go.GoMap.{GoMap, literal}
use supabase_kubernetes.Go.Outcome.{Outcome, ok}
use supabase_kubernetes.Helper.Env.{env_var, env_var_from_secret}
use supabase_kubernetes.Helper.Env.Merge.{merge_env_vars}
use supabase_kubernetes.Kube.Core.{ConfigMap, Service}
use supabase_kubernetes.Kube.Meta.{object_meta}
use supabase_kubernetes.Kube.Pod.{Container, EnvVar, Handler, Volume, exec}
use supabase_kubernetes.Kube.Workload.{Deployment}
use supabase_kubernetes.Prelude.{
  Bool, List, Option, String, [], false, if◌then◌else◌, none, some, ℕ, ◌++◌, ◌=s◌, ◌||◌, ◌∷◌,
}
use supabase_kubernetes.Reconciler.Mutate.Pods.{blank_container}

abbrev pub default_functions_port : ℕ
default_functions_port = 9000

unfoldable pub functions_labels : Tools → Context → GoMap String
functions_labels t ctx = component_labels t ctx "EdgeRuntime" "edge-runtime" "functions" "functions"

unfoldable pub functions_selector_labels : Tools → Context → GoMap String
functions_selector_labels t ctx =
    selector_labels t ctx "EdgeRuntime" "edge-runtime" "functions" "functions"

unfoldable pub functions_service_name : Tools → Context → String
functions_service_name t ctx = component_name t ctx "EdgeRuntime" "edge-runtime"

unfoldable pub functions_deployment_name : Tools → Context → String
functions_deployment_name t ctx = component_name t ctx "EdgeRuntime" "edge-runtime"

unfoldable pub functions_service : Tools → Context → Outcome (Option Service)
functions_service t ctx = elim ctx.spec.edge_runtime [
  | none ↦ ok none
  | some edge_runtime ↦
      built_service t
        (object_meta (functions_service_name t ctx) ctx.project.meta.namespace
          (functions_labels t ctx))
        (functions_selector_labels t ctx)
        (tcp_port "functions" default_functions_port (from_int default_functions_port) ∷ [])
        edge_runtime.service
]

unfoldable pub runtime_config_map_name : Tools → Context → String
runtime_config_map_name t ctx = component_name t ctx "EdgeRuntime" "config"

unfoldable pub runtime_config_map : Tools → Context → ConfigMap
runtime_config_map t ctx = record {
  meta =
      object_meta (runtime_config_map_name t ctx) ctx.project.meta.namespace
        (functions_labels t ctx);
  data_map =
      literal (
        ("index.ts", t.assets.main_function) ∷ ("deno.jsonc", t.assets.functions_deno_config) ∷ []);
  binary_data = "";
  rest = "";
}

unfoldable pub build_functions_env_vars :
    Tools → Context → EdgeRuntimeSpec → ResolvedDatabase → List EnvVar
build_functions_env_vars t ctx edge_runtime db =
    merge_env_vars
      (env_var_from_secret "JWT_SECRET" (jwt_secret_name ctx.project) "jwt-secret"
        ∷ env_var_from_secret "SUPABASE_JWKS" (jwt_secret_name ctx.project) "jwt-jwks"
        ∷ env_var "SUPABASE_URL" (service_url t ctx (envoy_service_name t ctx) default_envoy_port)
        ∷ env_var "SUPABASE_PUBLIC_URL" ctx.spec.project.public_url
        ∷ env_var_from_secret "SUPABASE_ANON_KEY" (jwt_secret_name ctx.project) "anon-key"
        ∷ env_var_from_secret "SUPABASE_SERVICE_ROLE_KEY" (jwt_secret_name ctx.project)
            "service-key"
        ∷ env_var_from_secret "SUPABASE_PUBLISHABLE_KEY" (jwt_secret_name ctx.project)
            "publishable-key"
        ∷ env_var_from_secret "SUPABASE_SECRET_KEY" (jwt_secret_name ctx.project) "secret-key"
        ∷ env_var "SUPABASE_PUBLISHABLE_KEYS" "{\"default\":\"$(SUPABASE_PUBLISHABLE_KEY)\"}"
        ∷ env_var "SUPABASE_SECRET_KEYS" "{\"default\":\"$(SUPABASE_SECRET_KEY)\"}"
        ∷ password_env_var "DB_PASSWORD" db
        ∷ env_var "SUPABASE_DB_URL" (database_url "postgresql://postgres:$(DB_PASSWORD)" db)
        ∷ [])
      edge_runtime.config

unfoldable pub functions_probe_handler : Handler
functions_probe_handler = exec ("bash" ∷ "-c" ∷ "timeout 1 bash -c '</dev/tcp/127.0.0.1/9000'" ∷ [])

-- the container with its image, pull policy, ports and probes
unfoldable pub build_functions_container : List EnvVar → Container
unfolding functions_probe_handler
build_functions_container env = record (blank_container "edge-runtime") {
  image = default_edge_runtime_image;
  image_pull_policy = pull_if_not_present;
  args =
      "start" ∷ "--user-worker-request-idle-timeout" ∷ "150000" ∷ "--main-service"
      ∷ "/home/deno/functions/main" ∷ [];
  volume_mounts =
      read_only (volume_mount "edge-runtime-config" "/home/deno/functions/main/index.ts" "index.ts")
      ∷ read_only
          (volume_mount "edge-runtime-config" "/home/deno/functions/deno.jsonc" "deno.jsonc")
      ∷ volume_mount "deno-cache" "/root/.cache/deno" ""
      ∷ [];
  env = env;
  ports = container_port "functions" default_functions_port "TCP" ∷ [];
  liveness_probe = some (probe functions_probe_handler 5 5 5 3);
  readiness_probe = some (probe functions_probe_handler 5 5 5 3);
  startup_probe = some (probe functions_probe_handler 5 5 5 10);
}

-- the loop over the volumes of the spec: whether one is named deno-cache
unfoldable pub has_deno_cache : List Volume → Bool
has_deno_cache [] = false
has_deno_cache (v ∷ vs) = (v.name =s "deno-cache") || has_deno_cache vs

unfoldable pub build_config_volumes : Tools → Context → EdgeRuntimeSpec → List Volume
unfolding has_deno_cache
build_config_volumes t ctx edge_runtime =
    let volumes = config_map_volume "edge-runtime-config" (runtime_config_map_name t ctx) ∷ [] in
    let given : Bool = elim edge_runtime.pod [
      | none ↦ false
      | some pod ↦ has_deno_cache pod.spec.volumes
    ] in
    if given then volumes else volumes ++ empty_dir_volume "deno-cache" ∷ []

unfoldable pub functions_deployment :
    Tools → Context → ResolvedDatabase → Outcome (Option Deployment)
functions_deployment t ctx db = elim ctx.spec.edge_runtime [
  | none ↦ ok none
  | some edge_runtime ↦
      built_deployment t
        (object_meta (functions_deployment_name t ctx) ctx.project.meta.namespace
          (functions_labels t ctx))
        (replicas_or_one edge_runtime.replicas) (functions_selector_labels t ctx)
        (pod_template (functions_labels t ctx)
          (build_functions_container (build_functions_env_vars t ctx edge_runtime db) ∷ [])
          (build_config_volumes t ctx edge_runtime))
        edge_runtime.pod
]
