-- ===== src/Kube/Core.antt =====
-- Secrets, ConfigMaps, Services and PersistentVolumeClaims of corev1.
use supabase_kubernetes.Go.GoMap.{GoMap}
use supabase_kubernetes.Kube.Meta.{IntOrString, ObjectMeta, Opaque}
use supabase_kubernetes.Prelude.{Bool, List, Option, String, ℕ}

pub record Secret : Type 0 where
  pub meta : ObjectMeta
  pub type : String
  -- field Data
  pub data_map : GoMap String

pub record ConfigMap : Type 0 where
  pub meta : ObjectMeta
  -- field Data
  pub data_map : GoMap String
  pub binary_data : Opaque
  pub rest : Opaque

pub record ServicePort : Type 0 where
  pub name : String
  pub protocol : String
  pub port : ℕ
  pub target_port : IntOrString
  pub node_port : ℕ
  pub rest : Opaque

-- A slice that the code tests for nil is an `Option`.
pub record ServiceSpec : Type 0 where
  pub type : String
  pub selector : GoMap String
  pub cluster_ip : String
  pub cluster_ips : Option (List String)
  pub ip_families : Option (List String)
  pub ip_family_policy : Option String
  pub health_check_node_port : ℕ
  pub allocate_load_balancer_node_ports : Option Bool
  pub session_affinity : String
  pub external_traffic_policy : String
  pub internal_traffic_policy : Option String
  pub traffic_distribution : Option String
  pub ports : List ServicePort
  pub rest : Opaque

pub record Service : Type 0 where
  pub meta : ObjectMeta
  pub spec : ServiceSpec
  pub rest : Opaque

-- VolumeResourceRequirements
pub record VolumeResources : Type 0 where
  -- Requests["storage"], a quantity
  pub storage_request : Option String
  pub rest : Opaque

pub record PersistentVolumeClaimSpec : Type 0 where
  pub access_modes : List String
  pub selector : Option Opaque
  pub resources : VolumeResources
  pub volume_name : String
  pub storage_class_name : Option String
  pub volume_mode : Option String
  pub data_source : Option Opaque
  pub data_source_ref : Option Opaque
  pub volume_attributes_class_name : Option String

pub record PersistentVolumeClaim : Type 0 where
  pub meta : ObjectMeta
  pub spec : PersistentVolumeClaimSpec
  pub rest : Opaque
