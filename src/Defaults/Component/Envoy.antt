-- ===== src/Defaults/Component/Envoy.antt =====
-- internal/defaults/envoy: labels, Secret, Service and Deployment
pub mod Routes
use supabase_kubernetes.Api.Components.{EnvoySpec}
use supabase_kubernetes.Defaults.Assets.{simple_container}
use supabase_kubernetes.Defaults.Component.{
  built_deployment, built_service, default_envoy_port, envoy_service_name, replicas_or_one,
}
use supabase_kubernetes.Defaults.Context.{
  Context, Tools, component_labels, component_name, selector_labels,
}
use supabase_kubernetes.Defaults.Images.{default_envoy_image, pull_if_not_present}
use supabase_kubernetes.Defaults.Project.{jwt_secret_name}
use supabase_kubernetes.Defaults.Shapes.{
  blank_pod_spec, config_map_volume, container_port, empty_dir_volume, from_int, opaque_secret,
  probe, tcp_port, volume_mount,
}
use supabase_kubernetes.Go.Exec.{Exec, attempt, pure, raise}
use supabase_kubernetes.Go.GoMap.{GoMap, literal}
use supabase_kubernetes.Go.Outcome.{Outcome, ok, wrap}
use supabase_kubernetes.Helper.Env.{env_var, env_var_from_secret}
use supabase_kubernetes.Helper.Env.Merge.{merge_env_vars}
use supabase_kubernetes.Helper.Random.{Random, generate_random_alphanumeric}
use supabase_kubernetes.Kube.Core.{Secret, Service}
use supabase_kubernetes.Kube.Meta.{object_meta}
use supabase_kubernetes.Kube.Pod.{Container, EnvVar, Handler, PodTemplateSpec, exec}
use supabase_kubernetes.Kube.Workload.{Deployment}
use supabase_kubernetes.Prelude.{List, Option, String, [], none, some, ◌∷◌}
use supabase_kubernetes.Reconciler.Mutate.Pods.{blank_container}

unfoldable pub envoy_labels : Tools → Context → GoMap String
envoy_labels t ctx = component_labels t ctx "Envoy" "envoy" "envoy" "gateway"

unfoldable pub envoy_selector_labels : Tools → Context → GoMap String
envoy_selector_labels t ctx = selector_labels t ctx "Envoy" "envoy" "envoy" "gateway"

unfoldable pub envoy_deployment_name : Tools → Context → String
envoy_deployment_name t ctx = component_name t ctx "Envoy" "envoy"

unfoldable pub envoy_service : Tools → Context → Outcome (Option Service)
envoy_service t ctx = elim ctx.spec.envoy [
  | none ↦ ok none
  | some envoy ↦
      built_service t
        (object_meta (envoy_service_name t ctx) ctx.project.meta.namespace (envoy_labels t ctx))
        (envoy_selector_labels t ctx)
        (tcp_port "envoy" default_envoy_port (from_int default_envoy_port) ∷ []) envoy.service
]

unfoldable pub envoy_secret_name : Tools → Context → String
envoy_secret_name t ctx = component_name t ctx "Envoy" "envoy-auth"

unfoldable pub envoy_secret : {W : Type 0} → Random W → Tools → Context → Exec W Secret
envoy_secret rand t ctx =
    attempt (generate_random_alphanumeric rand 32)
      (λ e. raise (wrap "generating envoy dashboard password" e))
      λ password. pure (
        opaque_secret
          (object_meta (envoy_secret_name t ctx) ctx.project.meta.namespace (envoy_labels t ctx))
          (literal (("username", "supabase") ∷ ("password", password) ∷ [])))

unfoldable pub envoy_config_map_name : Tools → Context → String
envoy_config_map_name t ctx = component_name t ctx "Envoy" "envoy-config"

-- envoyPodAnnotations
unfoldable pub envoy_pod_annotations : String → String → GoMap String
envoy_pod_annotations config_map_hash secret_hash =
    literal
      (("supabase.io/config-hash", config_map_hash) ∷ ("supabase.io/secret-hash", secret_hash) ∷ [])

unfoldable pub build_envoy_env_vars : Tools → Context → EnvoySpec → List EnvVar
build_envoy_env_vars t ctx envoy =
    let jwt = jwt_secret_name ctx.project in
    let auth = envoy_secret_name t ctx in
    merge_env_vars
      (env_var_from_secret "ANON_KEY" jwt "anon-key"
        ∷ env_var_from_secret "SERVICE_ROLE_KEY" jwt "service-key"
        ∷ env_var_from_secret "SUPABASE_PUBLISHABLE_KEY" jwt "publishable-key"
        ∷ env_var_from_secret "SUPABASE_SECRET_KEY" jwt "secret-key"
        ∷ env_var_from_secret "ANON_KEY_ASYMMETRIC" jwt "anon-key-asymmetric"
        ∷ env_var_from_secret "SERVICE_ROLE_KEY_ASYMMETRIC" jwt "service-key-asymmetric"
        ∷ env_var "SUPABASE_PUBLIC_URL" ctx.spec.project.public_url
        ∷ env_var_from_secret "DASHBOARD_USERNAME" auth "username"
        ∷ env_var_from_secret "DASHBOARD_PASSWORD" auth "password"
        ∷ [])
      envoy.config

unfoldable pub envoy_probe_handler : Handler
envoy_probe_handler = exec ("sh" ∷ "-c" ∷ "timeout 1 bash -c '</dev/tcp/127.0.0.1/8000'" ∷ [])

-- the container with its image, pull policy, ports and probes
unfoldable pub build_envoy_container : List EnvVar → Container
unfolding envoy_probe_handler
build_envoy_container env = record (blank_container "envoy") {
  image = default_envoy_image;
  image_pull_policy = pull_if_not_present;
  command = "/bin/sh" ∷ "/etc/envoy/docker-entrypoint.sh" ∷ [];
  env = env;
  ports = container_port "envoy" default_envoy_port "TCP" ∷ [];
  volume_mounts = volume_mount "envoy-runtime" "/etc/envoy" "" ∷ [];
  liveness_probe = some (probe envoy_probe_handler 10 10 5 3);
  readiness_probe = some (probe envoy_probe_handler 5 10 5 3);
}

unfoldable pub build_envoy_init_container : Tools → Container
build_envoy_init_container t =
    record (simple_container "envoy-init" default_envoy_image ("/bin/sh" ∷ "-c" ∷ [])
      (t.assets.project_envoy_init_container ∷ []) []) {
        volume_mounts =
            volume_mount "envoy-config" "/etc/envoy-config" ""
            ∷ volume_mount "envoy-runtime" "/etc/envoy" ""
            ∷ [];
      }

-- the template that EnvoyDeployment overlays with the one of the spec
unfoldable pub envoy_pod :
    Tools → Context → EnvoySpec → (config_map_hash secret_hash : String) → PodTemplateSpec
unfolding envoy_pod_annotations build_envoy_env_vars build_envoy_container
    build_envoy_init_container
envoy_pod t ctx envoy config_map_hash secret_hash = record {
  meta = record (object_meta "" "" (envoy_labels t ctx)) {
    annotations = envoy_pod_annotations config_map_hash secret_hash;
  };
  spec = record blank_pod_spec {
    init_containers = build_envoy_init_container t ∷ [];
    containers = build_envoy_container (build_envoy_env_vars t ctx envoy) ∷ [];
    volumes =
        config_map_volume "envoy-config" (envoy_config_map_name t ctx)
        ∷ empty_dir_volume "envoy-runtime"
        ∷ [];
  };
}

-- EnvoyDeployment
unfoldable pub envoy_deployment :
    Tools → Context → (config_map_hash secret_hash : String) → Outcome (Option Deployment)
envoy_deployment t ctx config_map_hash secret_hash = elim ctx.spec.envoy [
  | none ↦ ok none
  | some envoy ↦
      built_deployment t
        (object_meta (envoy_deployment_name t ctx) ctx.project.meta.namespace (envoy_labels t ctx))
        (replicas_or_one envoy.replicas) (envoy_selector_labels t ctx)
        (envoy_pod t ctx envoy config_map_hash secret_hash) envoy.pod
]
