-- ===== src/Defaults/Assets.antt =====
-- Inputs of the builders: the files embedded by internal/assets/embed.go, and hashing.
use supabase_kubernetes.Defaults.Images.{pull_if_not_present}
use supabase_kubernetes.Defaults.Shapes.{blank_pod_spec}
use supabase_kubernetes.Go.GoMap.{GoMap}
use supabase_kubernetes.Kube.Meta.{ObjectMeta, object_meta}
use supabase_kubernetes.Kube.Pod.{Container, EnvVar, PodTemplateSpec, Volume}
use supabase_kubernetes.Kube.Workload.{Job}
use supabase_kubernetes.Prelude.{List, String, [], none, some, ◌∷◌}
use supabase_kubernetes.Reconciler.Mutate.Pods.{blank_container}

pub record Assets : Type 0 where
  pub migration_apply_script : String
  pub project_sync_jwt_script : String
  pub project_sync_password_script : String
  -- the migrations of a Project, by file: supabase, realtime, logs, pooler and webhooks
  pub supabase_migration : String
  pub realtime_migration : String
  pub logs_migration : String
  pub pooler_migration : String
  pub webhooks_migration : String
  pub single_database_password_sync_script : String
  pub single_database_pgsodium_init_script : String
  pub project_envoy_init_container : String
  pub envoy_entrypoint : String
  pub main_function : String
  pub functions_deno_config : String
  pub envoy_base_template : String
  pub envoy_cds_template : String
  pub envoy_lds_template : String
  pub supavisor_pooler_script : String
  pub vector_template : String

-- `fmt.Sprintf("%x", h.Sum(nil))` after the writes of a text to `sha256.New()`
abbrev pub Digest : Type 0
Digest = String → String

-- A container of which these fields are set.
abbrev pub simple_container : String → String → List String → List String → List EnvVar → Container
simple_container name image command args env = record (blank_container name) {
  image = image;
  image_pull_policy = pull_if_not_present;
  command = command;
  args = args;
  env = env;
}

-- A pod of one container, restarted on failure, with the given volumes.
abbrev pub job_pod : GoMap String → Container → List Volume → PodTemplateSpec
job_pod labels container volumes = record {
  meta = object_meta "" "" labels;
  spec = record blank_pod_spec {
    volumes = volumes;
    restart_policy = "OnFailure";
    containers = container ∷ [];
  };
}

-- A Job with the operator's back-off and clean-up.
abbrev pub operator_job : ObjectMeta → PodTemplateSpec → Job
operator_job meta template = record {
  meta = meta;
  spec = record {
    selector = none;
    template = template;
    backoff_limit = some 3;
    ttl_seconds_after_finished = some 30;
    rest = "";
  };
  status = record { succeeded = 0; failed = 0 };
}
