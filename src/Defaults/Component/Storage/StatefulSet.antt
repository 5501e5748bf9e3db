-- ===== src/Defaults/Component/Storage/StatefulSet.antt =====
-- internal/defaults/storage/statefulset.go
use supabase_kubernetes.Api.Common.{ResolvedDatabase}
use supabase_kubernetes.Api.Components.{StorageSpec}
use supabase_kubernetes.Defaults.Component.{
  built_stateful_set, database_url, password_env_var, replicas_or_one, service_url,
}
use supabase_kubernetes.Defaults.Component.Rest.{default_rest_port, rest_service_name}
use supabase_kubernetes.Defaults.Component.Storage.{
  build_storage_volume, default_storage_port, storage_labels, storage_secret_name,
  storage_selector_labels, storage_service_name, storage_stateful_set_name,
}
use supabase_kubernetes.Defaults.Context.{Context, Tools}
use supabase_kubernetes.Defaults.Images.{
  default_imgproxy_image, default_storage_image, pull_if_not_present,
}
use supabase_kubernetes.Defaults.Project.{jwt_secret_name}
use supabase_kubernetes.Defaults.Shapes.{container_port, pod_template, probe, volume_mount}
use supabase_kubernetes.Go.Outcome.{Outcome, ok}
use supabase_kubernetes.Go.Strconv.{itoa}
use supabase_kubernetes.Helper.Env.{env_var, env_var_from_secret}
use supabase_kubernetes.Helper.Env.Merge.{merge_env_vars}
use supabase_kubernetes.Kube.Meta.{object_meta}
use supabase_kubernetes.Kube.Pod.{Container, EnvVar, Handler, Probe, VolumeMount, exec}
use supabase_kubernetes.Kube.Workload.{StatefulSet}
use supabase_kubernetes.Prelude.{List, Option, String, [], concat, none, some, ◌∷◌}
use supabase_kubernetes.Reconciler.Mutate.Pods.{blank_container}

abbrev pub storage_data_mount_path : String
storage_data_mount_path = "/var/lib/storage"

unfoldable pub build_storage_volume_mounts : List VolumeMount
build_storage_volume_mounts =
    volume_mount "storage-data" storage_data_mount_path "storage-data" ∷ []

unfoldable pub build_storage_env_vars :
    Tools → Context → StorageSpec → ResolvedDatabase → List EnvVar
build_storage_env_vars t ctx storage db =
    merge_env_vars
      (env_var_from_secret "ANON_KEY" (jwt_secret_name ctx.project) "anon-key"
        ∷ env_var_from_secret "SERVICE_KEY" (jwt_secret_name ctx.project) "service-key"
        ∷ env_var "POSTGREST_URL" (service_url t ctx (rest_service_name t ctx) default_rest_port)
        ∷ env_var_from_secret "AUTH_JWT_SECRET" (jwt_secret_name ctx.project) "jwt-secret"
        ∷ env_var_from_secret "JWT_JWKS" (jwt_secret_name ctx.project) "jwt-jwks"
        ∷ password_env_var "DB_PASSWORD" db
        ∷ env_var "DATABASE_URL"
            (database_url "postgres://supabase_storage_admin:$(DB_PASSWORD)" db)
        ∷ env_var "STORAGE_PUBLIC_URL" ctx.spec.project.public_url
        ∷ env_var "REQUEST_ALLOW_X_FORWARDED_PATH" "true"
        ∷ env_var "STORAGE_BACKEND" "file"
        ∷ env_var "GLOBAL_S3_BUCKET" ctx.project.meta.name
        ∷ env_var "FILE_STORAGE_BACKEND_PATH" storage_data_mount_path
        ∷ env_var "TENANT_ID" ctx.project.meta.name
        ∷ env_var "REGION" ctx.project.meta.name
        ∷ env_var "ENABLE_IMAGE_TRANSFORMATION" "true"
        ∷ env_var "IMGPROXY_URL" "http://127.0.0.1:5001"
        ∷ env_var_from_secret "S3_PROTOCOL_ACCESS_KEY_ID" (storage_secret_name t ctx) "accessKeyId"
        ∷ env_var_from_secret "S3_PROTOCOL_ACCESS_KEY_SECRET" (storage_secret_name t ctx)
            "accessKeySecret"
        ∷ [])
      storage.config

unfoldable pub storage_probe_handler : Handler
storage_probe_handler = exec (
    "wget"
    ∷ "--no-verbose"
    ∷ "--tries=1"
    ∷ "--spider"
    ∷ concat ("http://127.0.0.1:" ∷ itoa default_storage_port ∷ "/status" ∷ [])
    ∷ [])

-- the container with its image, pull policy, ports and probes
unfoldable pub build_storage_container : List EnvVar → Container
unfolding storage_probe_handler
build_storage_container env = record (blank_container "storage") {
  image = default_storage_image;
  image_pull_policy = pull_if_not_present;
  volume_mounts = build_storage_volume_mounts;
  env = env;
  ports = container_port "storage" default_storage_port "TCP" ∷ [];
  liveness_probe = some (probe storage_probe_handler 10 5 5 3);
  readiness_probe = some (probe storage_probe_handler 5 5 5 3);
  startup_probe = some (probe storage_probe_handler 10 5 5 6);
}

unfoldable pub imgproxy_probe : Probe
imgproxy_probe = probe (exec ("imgproxy" ∷ "health" ∷ [])) 0 5 5 3

unfoldable pub build_imgproxy_container : Container
unfolding imgproxy_probe
build_imgproxy_container = record (blank_container "imgproxy") {
  image = default_imgproxy_image;
  image_pull_policy = pull_if_not_present;
  ports = container_port "http" 5001 "TCP" ∷ [];
  env =
      env_var "IMGPROXY_BIND" ":5001"
      ∷ env_var "IMGPROXY_LOCAL_FILESYSTEM_ROOT" "/"
      ∷ env_var "IMGPROXY_USE_ETAG" "true"
      ∷ env_var "IMGPROXY_AUTO_WEBP" "true"
      ∷ env_var "IMGPROXY_MAX_SRC_RESOLUTION" "16.8"
      ∷ [];
  liveness_probe = some imgproxy_probe;
  readiness_probe = some imgproxy_probe;
  volume_mounts = build_storage_volume_mounts;
}

unfoldable pub storage_stateful_set :
    Tools → Context → ResolvedDatabase → Outcome (Option StatefulSet)
storage_stateful_set t ctx db = elim ctx.spec.storage [
  | none ↦ ok none
  | some storage ↦
      built_stateful_set t
        (object_meta (storage_stateful_set_name t ctx) ctx.project.meta.namespace
          (storage_labels t ctx))
        (storage_service_name t ctx) (replicas_or_one storage.replicas)
        (storage_selector_labels t ctx)
        (pod_template (storage_labels t ctx)
          (build_storage_container (build_storage_env_vars t ctx storage db)
            ∷ build_imgproxy_container
            ∷ [])
          (build_storage_volume t ctx ∷ []))
        storage.pod
]
