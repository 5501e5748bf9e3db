-- ===== src/Kube/Pod.antt =====
-- corev1.PodTemplateSpec and its parts.
use supabase_kubernetes.Go.GoMap.{GoMap}
use supabase_kubernetes.Kube.Meta.{IntOrString, ObjectMeta, Opaque}
use supabase_kubernetes.Prelude.{Bool, List, Option, String, ℕ}

-- A reference to a Secret or a ConfigMap by name.
pub record ObjectRef : Type 0 where
  pub name : String
  pub optional : Option Bool

-- SecretKeySelector and ConfigMapKeySelector
pub record KeySelector : Type 0 where
  pub name : String
  pub key : String
  pub optional : Option Bool

pub record EnvVarSource : Type 0 where
  pub secret_key_ref : Option KeySelector
  pub config_map_key_ref : Option KeySelector
  pub rest : Opaque

pub record EnvVar : Type 0 where
  pub name : String
  pub value : String
  pub value_from : Option EnvVarSource

-- EnvFromSource
pub record EnvFrom : Type 0 where
  pub secret_ref : Option ObjectRef
  pub config_map_ref : Option ObjectRef
  pub rest : Opaque

-- HostPathVolumeSource
pub record HostPath : Type 0 where
  pub path : String
  pub type : Option String

-- VolumeProjection
pub record Projection : Type 0 where
  pub secret : Option ObjectRef
  pub config_map : Option ObjectRef
  pub rest : Opaque

pub record Volume : Type 0 where
  pub name : String
  pub secret : Option ObjectRef
  pub config_map : Option ObjectRef
  pub projected : Option (List Projection)
  -- PersistentVolumeClaim.ClaimName
  pub claim_name : Option String
  -- whether EmptyDir is set
  pub empty_dir : Bool
  pub host_path : Option HostPath
  pub rest : Opaque

pub record VolumeMount : Type 0 where
  pub name : String
  pub mount_path : String
  pub sub_path : String
  pub read_only : Bool

-- ContainerPort
pub record ContainerPort : Type 0 where
  pub name : String
  pub container_port : ℕ
  pub protocol : String
  pub rest : Opaque

-- HTTPGetAction; the port is a number or a name.
pub record HttpGet : Type 0 where
  pub path : String
  pub port : IntOrString
  pub scheme : String
  pub rest : Opaque

-- ProbeHandler and LifecycleHandler, of which one action is set
pub data Handler : Type 0 where
  exec : List String → Handler
  http_get : HttpGet → Handler
  other_handler : Opaque → Handler

pub record Lifecycle : Type 0 where
  pub pre_stop : Option Handler
  pub rest : Opaque

pub record Probe : Type 0 where
  pub probe_handler : Handler
  pub initial_delay_seconds : ℕ
  pub termination_grace_period_seconds : Option ℕ
  pub period_seconds : ℕ
  pub timeout_seconds : ℕ
  pub failure_threshold : ℕ
  pub success_threshold : ℕ

pub record Container : Type 0 where
  pub name : String
  pub image : String
  pub command : List String
  pub args : List String
  pub working_dir : String
  pub ports : List ContainerPort
  pub env_from : List EnvFrom
  pub env : List EnvVar
  pub resources : Opaque
  pub volume_mounts : List VolumeMount
  pub volume_devices : Opaque
  pub lifecycle : Option Lifecycle
  pub image_pull_policy : String
  pub security_context : Option Opaque
  pub liveness_probe : Option Probe
  pub readiness_probe : Option Probe
  pub startup_probe : Option Probe
  pub termination_message_path : String
  pub termination_message_policy : String
  pub rest : Opaque

pub record PodSpec : Type 0 where
  pub affinity : Option Opaque
  pub node_selector : GoMap String
  pub tolerations : Opaque
  pub priority_class_name : String
  pub security_context : Option Opaque
  pub termination_grace_period_seconds : Option ℕ
  pub volumes : List Volume
  pub service_account_name : String
  pub image_pull_secrets : Opaque
  pub host_aliases : Opaque
  pub restart_policy : String
  pub init_containers : List Container
  pub containers : List Container
  pub rest : Opaque

pub record PodTemplateSpec : Type 0 where
  pub meta : ObjectMeta
  pub spec : PodSpec
