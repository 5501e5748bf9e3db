-- ===== src/Defaults/SingleDatabase/StatefulSet.antt =====
-- internal/defaults/singledatabase/statefulset.go
use supabase_kubernetes.Api.Databases.{SingleDatabase}
use supabase_kubernetes.Defaults.Assets.{Assets, simple_container}
use supabase_kubernetes.Defaults.Images.{default_postgres_image, pull_if_not_present}
use supabase_kubernetes.Defaults.Shapes.{
  blank_pod_spec, claim_volume, container_port, probe, stateful_set, volume_mount,
}
use supabase_kubernetes.Defaults.SingleDatabase.{
  default_postgres_database, default_postgres_port, default_postgres_user, postgres_custom_sub_path,
  postgres_labels, postgres_pvc_name, postgres_secret_name, postgres_selector_labels,
  postgres_service_name, postgres_stateful_set_name, secret_key_password,
}
use supabase_kubernetes.Go.GoMap.{GoMap, empty, literal}
use supabase_kubernetes.Go.Outcome.{Outcome, ok}
use supabase_kubernetes.Go.Pure.{◌>>=◌}
use supabase_kubernetes.Go.Strconv.{itoa}
use supabase_kubernetes.Helper.Env.{env_var, env_var_from_secret}
use supabase_kubernetes.Helper.Overlay.{JsonText, Patching, overlay}
use supabase_kubernetes.Kube.Meta.{object_meta}
use supabase_kubernetes.Kube.Pod.{
  Container, EnvVar, Handler, Lifecycle, PodTemplateSpec, Probe, Volume, VolumeMount, exec,
}
use supabase_kubernetes.Kube.Workload.{StatefulSet}
use supabase_kubernetes.Prelude.{List, Option, String, [], if◌then◌else◌, some, ◌=s◌, ◌∷◌}
use supabase_kubernetes.Reconciler.Mutate.Pods.{blank_container}

unfoldable pub pod_annotations : String → GoMap String
pod_annotations secret_hash =
    if secret_hash =s "" then empty else literal (("supabase.io/secret-hash", secret_hash) ∷ [])

unfoldable pub build_postgres_env_vars : SingleDatabase → List EnvVar
build_postgres_env_vars db =
    let secret_name = postgres_secret_name db in
    let port = itoa default_postgres_port in
    env_var "POSTGRES_HOST" "/var/run/postgresql"
    ∷ env_var "PGPORT" port
    ∷ env_var "POSTGRES_PORT" port
    ∷ env_var_from_secret "PGPASSWORD" secret_name secret_key_password
    ∷ env_var_from_secret "POSTGRES_PASSWORD" secret_name secret_key_password
    ∷ env_var "PGDATABASE" default_postgres_database
    ∷ env_var "POSTGRES_DB" default_postgres_database
    ∷ []

unfoldable pub postgres_volume_mounts : List VolumeMount
postgres_volume_mounts =
    volume_mount "postgres-data" "/var/lib/postgresql/data" "postgres-data"
    ∷ volume_mount "postgres-data" "/etc/postgresql-custom" postgres_custom_sub_path
    ∷ []

unfoldable pub build_postgres_volume : SingleDatabase → Volume
build_postgres_volume db = claim_volume "postgres-data" (postgres_pvc_name db)

unfoldable pub postgres_lifecycle : Lifecycle
postgres_lifecycle = record {
  pre_stop =
      some
        (exec ("/bin/sh" ∷ "-c" ∷ "pg_ctl -D /var/lib/postgresql/data -w -t 60 -m fast stop" ∷ []));
  rest = "";
}

unfoldable pub postgres_probe_handler : Handler
postgres_probe_handler =
    exec ("pg_isready" ∷ "-U" ∷ default_postgres_user ∷ "-h" ∷ "localhost" ∷ [])

-- postgresLivenessProbe, postgresReadinessProbe and postgresStartupProbe
unfoldable pub postgres_liveness_probe : Probe
unfolding postgres_probe_handler
postgres_liveness_probe = probe postgres_probe_handler 30 10 5 6

unfoldable pub postgres_readiness_probe : Probe
unfolding postgres_probe_handler
postgres_readiness_probe = probe postgres_probe_handler 5 5 5 10

unfoldable pub postgres_startup_probe : Probe
unfolding postgres_probe_handler
postgres_startup_probe = probe postgres_probe_handler 5 5 5 30

unfoldable pub build_postgres_container : SingleDatabase → Container
build_postgres_container db = record (blank_container "postgres") {
  image = default_postgres_image;
  image_pull_policy = pull_if_not_present;
  args =
      "-c" ∷ "config_file=/etc/postgresql/postgresql.conf" ∷ "-c" ∷ "log_min_messages=fatal" ∷ [];
  env = build_postgres_env_vars db;
  ports = container_port "postgres" default_postgres_port "TCP" ∷ [];
  volume_mounts = postgres_volume_mounts;
  liveness_probe = some postgres_liveness_probe;
  readiness_probe = some postgres_readiness_probe;
  startup_probe = some postgres_startup_probe;
  lifecycle = some postgres_lifecycle;
}

unfoldable pub build_password_sync_init_container : Assets → SingleDatabase → Container
build_password_sync_init_container assets db =
    record (simple_container "password-sync" default_postgres_image ("/bin/sh" ∷ "-c" ∷ [])
      (assets.single_database_password_sync_script ∷ []) (build_postgres_env_vars db)) {
        volume_mounts = postgres_volume_mounts;
      }

unfoldable pub build_pgsodium_init_container : Assets → SingleDatabase → Container
build_pgsodium_init_container assets db =
    record (simple_container "init-pgsodium" default_postgres_image ("/bin/sh" ∷ "-c" ∷ [])
      (assets.single_database_pgsodium_init_script ∷ []) []) {
        volume_mounts = volume_mount "postgres-data" "/mnt/pgsodium" postgres_custom_sub_path ∷ [];
      }

-- the template that PostgresStatefulSet overlays with the one of the spec
unfoldable pub postgres_pod : Assets → SingleDatabase → String → PodTemplateSpec
unfolding pod_annotations build_postgres_container build_password_sync_init_container
    build_pgsodium_init_container build_postgres_volume
postgres_pod assets db secret_hash = record {
  meta = record (object_meta "" "" (postgres_labels db)) {
    annotations = pod_annotations secret_hash;
  };
  spec = record blank_pod_spec {
    init_containers =
        build_pgsodium_init_container assets db ∷ build_password_sync_init_container assets db ∷ [];
    containers = build_postgres_container db ∷ [];
    volumes = build_postgres_volume db ∷ [];
  };
}

-- PostgresStatefulSet
unfoldable pub postgres_stateful_set :
    JsonText
    → Patching PodTemplateSpec
    → Assets
    → SingleDatabase
    → String
    → Outcome (Option StatefulSet)
unfolding postgres_pod postgres_stateful_set_name postgres_labels postgres_service_name
    postgres_selector_labels
postgres_stateful_set j p assets db secret_hash = do
  template ← overlay j p (postgres_pod assets db secret_hash) db.spec.pod
  ok (
      some (
        stateful_set
          (object_meta (postgres_stateful_set_name db) db.meta.namespace (postgres_labels db))
          (postgres_service_name db) (some 1) (postgres_selector_labels db) template))
