-- ===== src/Defaults/Shapes.antt =====
-- The objects of Kubernetes with the fields that the builders set, and the other ones unset.
use supabase_kubernetes.Go.GoMap.{GoMap, nil}
use supabase_kubernetes.Kube.Core.{
  PersistentVolumeClaim, PersistentVolumeClaimSpec, Secret, Service, ServicePort,
}
use supabase_kubernetes.Kube.Meta.{IntOrString, LabelSelector, ObjectMeta, object_meta}
use supabase_kubernetes.Kube.Pod.{
  Container, ContainerPort, Handler, PodSpec, PodTemplateSpec, Probe, Volume, VolumeMount, http_get,
}
use supabase_kubernetes.Kube.Workload.{Deployment, StatefulSet}
use supabase_kubernetes.Prelude.{List, Option, String, [], false, none, some, true, ℕ, ◌∷◌}

-- a probe of which the handler and these numbers are set
abbrev pub probe : Handler → ℕ → ℕ → ℕ → ℕ → Probe
probe handler initial_delay period timeout failures = record {
  probe_handler = handler;
  initial_delay_seconds = initial_delay;
  termination_grace_period_seconds = none;
  period_seconds = period;
  timeout_seconds = timeout;
  failure_threshold = failures;
  success_threshold = 0;
}

-- intstr.FromInt32 and intstr.FromString
abbrev pub from_int : ℕ → IntOrString
from_int n = record { int_val = n; str_val = "" }

abbrev pub from_string : String → IntOrString
from_string s = record { int_val = 0; str_val = s }

abbrev pub http_probe : String → IntOrString → String → Handler
http_probe path port scheme =
    http_get (record { path = path; port = port; scheme = scheme; rest = "" })

abbrev pub container_port : String → ℕ → String → ContainerPort
container_port name port protocol = record {
  name = name;
  container_port = port;
  protocol = protocol;
  rest = "";
}

abbrev pub volume_mount : String → String → String → VolumeMount
volume_mount name path sub_path = record {
  name = name;
  mount_path = path;
  sub_path = sub_path;
  read_only = false;
}

abbrev pub read_only : VolumeMount → VolumeMount
read_only m = record m { read_only = true }

-- corev1.Volume{Name: name}
abbrev pub blank_volume : String → Volume
blank_volume name = record {
  name = name;
  secret = none;
  config_map = none;
  projected = none;
  claim_name = none;
  empty_dir = false;
  host_path = none;
  rest = "";
}

abbrev pub claim_volume : String → String → Volume
claim_volume name claim = record (blank_volume name) { claim_name = some claim }

abbrev pub config_map_volume : String → String → Volume
config_map_volume name config_map = record (blank_volume name) {
  config_map = some (record { name = config_map; optional = none });
}

abbrev pub empty_dir_volume : String → Volume
empty_dir_volume name = record (blank_volume name) { empty_dir = true }

-- corev1.PodSpec{}
abbrev pub blank_pod_spec : PodSpec
blank_pod_spec = record {
  affinity = none;
  node_selector = nil;
  tolerations = "";
  priority_class_name = "";
  security_context = none;
  termination_grace_period_seconds = none;
  volumes = [];
  service_account_name = "";
  image_pull_secrets = "";
  host_aliases = "";
  restart_policy = "";
  init_containers = [];
  containers = [];
  rest = "";
}

-- a pod template with labels, containers and volumes
abbrev pub pod_template : GoMap String → List Container → List Volume → PodTemplateSpec
pod_template labels containers volumes = record {
  meta = object_meta "" "" labels;
  spec = record blank_pod_spec { containers = containers; volumes = volumes };
}

abbrev pub matching : GoMap String → Option LabelSelector
matching labels = some (record { match_labels = labels; rest = "" })

abbrev pub deployment : ObjectMeta → Option ℕ → GoMap String → PodTemplateSpec → Deployment
deployment meta replicas selector template = record {
  meta = meta;
  spec = record {
    replicas = replicas;
    selector = matching selector;
    template = template;
    strategy = "";
    rest = "";
  };
  status = record { observed_generation = 0; ready_replicas = 0; updated_replicas = 0 };
}

abbrev pub stateful_set :
    ObjectMeta → String → Option ℕ → GoMap String → PodTemplateSpec → StatefulSet
stateful_set meta service_name replicas selector template = record {
  meta = meta;
  spec = record {
    replicas = replicas;
    selector = matching selector;
    template = template;
    volume_claim_templates = "";
    service_name = service_name;
    pod_management_policy = "";
    rest = "";
  };
  status = record {
    observed_generation = 0;
    ready_replicas = 0;
    current_revision = "";
    update_revision = "";
  };
}

abbrev pub tcp_port : String → ℕ → IntOrString → ServicePort
tcp_port name port target = record {
  name = name;
  protocol = "TCP";
  port = port;
  target_port = target;
  node_port = 0;
  rest = "";
}

-- a Service of type ClusterIP
abbrev pub cluster_service : ObjectMeta → GoMap String → List ServicePort → Service
cluster_service meta selector ports = record {
  meta = meta;
  spec = record {
    type = "ClusterIP";
    selector = selector;
    cluster_ip = "";
    cluster_ips = none;
    ip_families = none;
    ip_family_policy = none;
    health_check_node_port = 0;
    allocate_load_balancer_node_ports = none;
    session_affinity = "";
    external_traffic_policy = "";
    internal_traffic_policy = none;
    traffic_distribution = none;
    ports = ports;
    rest = "";
  };
  rest = "";
}

-- a claim of one gibibyte that one node at a time may write
abbrev pub default_claim_spec : PersistentVolumeClaimSpec
default_claim_spec = record {
  access_modes = "ReadWriteOnce" ∷ [];
  selector = none;
  resources = record { storage_request = some "1Gi"; rest = "" };
  volume_name = "";
  storage_class_name = none;
  volume_mode = none;
  data_source = none;
  data_source_ref = none;
  volume_attributes_class_name = none;
}

abbrev pub claim : ObjectMeta → PersistentVolumeClaimSpec → PersistentVolumeClaim
claim meta spec = record { meta = meta; spec = spec; rest = "" }

abbrev pub opaque_secret : ObjectMeta → GoMap String → Secret
opaque_secret meta entries = record { meta = meta; type = "Opaque"; data_map = entries }
