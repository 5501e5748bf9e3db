-- ===== src/Reconciler/Mutate/Pods.antt =====
-- mergePodTemplateSpec, mergePodSpec, mergeContainers, mergeContainer and mergeProbe
pub mod Laws
use supabase_kubernetes.Kube.Pod.{Container, PodSpec, PodTemplateSpec, Probe}
use supabase_kubernetes.Prelude.{
  List, Option, String, [], if◌then◌else◌, map, none, some, ◌=s◌, ◌∷◌,
}
use supabase_kubernetes.Reconciler.Mutate.Service.{number_or, text_or}

unfoldable pub merge_probe : Option Probe → Option Probe → Option Probe
merge_probe existing none = existing
merge_probe none (some desired) = some desired
merge_probe (some existing) (some desired) = some (record existing {
  probe_handler = desired.probe_handler;
  initial_delay_seconds = desired.initial_delay_seconds;
  termination_grace_period_seconds = desired.termination_grace_period_seconds;
  period_seconds = desired.period_seconds;
  timeout_seconds = desired.timeout_seconds;
  failure_threshold = desired.failure_threshold;
  success_threshold = number_or desired.success_threshold existing.success_threshold;
})

-- `text_or` has the same value as the source's two-armed test: where both texts are empty, both
-- arms leave the empty text.
unfoldable pub merge_container : Container → Container → Container
unfolding merge_probe
merge_container existing desired = record existing {
  name = desired.name;
  image = desired.image;
  command = desired.command;
  args = desired.args;
  working_dir = desired.working_dir;
  ports = desired.ports;
  env_from = desired.env_from;
  env = desired.env;
  resources = desired.resources;
  volume_mounts = desired.volume_mounts;
  volume_devices = desired.volume_devices;
  lifecycle = desired.lifecycle;
  image_pull_policy = desired.image_pull_policy;
  security_context = desired.security_context;
  liveness_probe = merge_probe existing.liveness_probe desired.liveness_probe;
  readiness_probe = merge_probe existing.readiness_probe desired.readiness_probe;
  startup_probe = merge_probe existing.startup_probe desired.startup_probe;
  termination_message_path =
      text_or desired.termination_message_path existing.termination_message_path;
  termination_message_policy =
      text_or desired.termination_message_policy existing.termination_message_policy;
}

-- corev1.Container{Name: name}
abbrev pub blank_container : String → Container
blank_container name = record {
  name = name;
  image = "";
  command = [];
  args = [];
  working_dir = "";
  ports = [];
  env_from = [];
  env = [];
  resources = "";
  volume_mounts = [];
  volume_devices = "";
  lifecycle = none;
  image_pull_policy = "";
  security_context = none;
  liveness_probe = none;
  readiness_probe = none;
  startup_probe = none;
  termination_message_path = "";
  termination_message_policy = "";
  rest = "";
}

-- `existingByName[name]`: of containers with one name the map holds the last.
unfoldable pub existing_by_name : List Container → String → Option Container
existing_by_name [] name = none
existing_by_name (c ∷ cs) name = elim (existing_by_name cs name) [
  | some later ↦ some later
  | none ↦ if c.name =s name then some c else none
]

abbrev pub container_or_blank : Option Container → String → Container
container_or_blank none name = blank_container name
container_or_blank (some c) name = c

-- The body of the loop. Containers of one list have distinct names, as the API server demands, so
-- that no two desired containers share the probes of an existing one.
unfoldable pub merge_named : List Container → Container → Container
merge_named existing d =
    merge_container (container_or_blank (existing_by_name existing d.name) d.name) d

unfoldable pub merge_containers : List Container → List Container → List Container
merge_containers existing [] = existing
merge_containers existing (d ∷ ds) = map (merge_named existing) (d ∷ ds)

unfoldable pub merge_pod_spec : PodSpec → PodSpec → PodSpec
merge_pod_spec existing desired = record existing {
  affinity = desired.affinity;
  node_selector = desired.node_selector;
  tolerations = desired.tolerations;
  priority_class_name = desired.priority_class_name;
  security_context = desired.security_context;
  termination_grace_period_seconds = desired.termination_grace_period_seconds;
  volumes = desired.volumes;
  service_account_name = desired.service_account_name;
  image_pull_secrets = desired.image_pull_secrets;
  host_aliases = desired.host_aliases;
  init_containers = merge_containers existing.init_containers desired.init_containers;
  containers = merge_containers existing.containers desired.containers;
}

unfoldable pub merge_pod_template_spec : PodTemplateSpec → PodTemplateSpec → PodTemplateSpec
merge_pod_template_spec existing desired = record {
  meta = desired.meta;
  spec = merge_pod_spec existing.spec desired.spec;
}
