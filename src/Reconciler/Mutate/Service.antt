-- ===== src/Reconciler/Mutate/Service.antt =====
-- MutateService, preserveServiceDefaults and findServicePort
pub mod Preserved
pub mod Settled
pub mod Laws
use supabase_kubernetes.Go.Outcome.{Outcome, ok}
use supabase_kubernetes.Kube.Core.{Service, ServicePort, ServiceSpec}
use supabase_kubernetes.Kube.Meta.{IntOrString}
use supabase_kubernetes.Prelude.{
  Bool, List, Option, String, [], if◌then◌else◌, map, none, some, ℕ, ◌&&◌, ◌==◌, ◌=s◌, ◌∷◌,
}
use supabase_kubernetes.Reconciler.Mutate.Pvc.{set_or}
use supabase_kubernetes.Reconciler.Mutate.Simple.{merge_meta}

-- `if desired == "" { result = current }`, and the same for numbers
abbrev pub text_or : String → String → String
text_or desired current = if desired =s "" then current else desired

abbrev pub number_or : ℕ → ℕ → ℕ
number_or desired current = if desired == 0 then current else desired

abbrev pub target_or : IntOrString → IntOrString → IntOrString
target_or desired current =
    if (desired.int_val == 0) && (desired.str_val =s "") then current else desired

abbrev pub matches_port : ServicePort → ServicePort → Bool
matches_port port desired =
    if desired.name =s ""
    then (port.port == desired.port) && (port.protocol =s desired.protocol)
    else port.name =s desired.name

unfoldable pub find_service_port : List ServicePort → ServicePort → Option ServicePort
find_service_port [] desired = none
find_service_port (port ∷ ports) desired =
    if matches_port port desired then some port else find_service_port ports desired

-- The body of the loop over the ports. The port of `result` is a copy of the desired port.
unfoldable pub preserve_port_defaults : List ServicePort → ServicePort → ServicePort
preserve_port_defaults current desired = elim (find_service_port current desired) [
  | none ↦ desired
  | some port ↦ record desired {
    node_port = number_or desired.node_port port.node_port;
    protocol = text_or desired.protocol port.protocol;
    target_port = target_or desired.target_port port.target_port;
  }
]

-- `result` is a copy of `desired` when this is called.
unfoldable pub preserve_service_defaults : ServiceSpec → ServiceSpec → ServiceSpec
preserve_service_defaults desired current = record desired {
  cluster_ip = text_or desired.cluster_ip current.cluster_ip;
  cluster_ips = set_or desired.cluster_ips current.cluster_ips;
  ip_families = set_or desired.ip_families current.ip_families;
  ip_family_policy = set_or desired.ip_family_policy current.ip_family_policy;
  health_check_node_port = number_or desired.health_check_node_port current.health_check_node_port;
  allocate_load_balancer_node_ports =
      set_or desired.allocate_load_balancer_node_ports current.allocate_load_balancer_node_ports;
  session_affinity = text_or desired.session_affinity current.session_affinity;
  external_traffic_policy = text_or desired.external_traffic_policy current.external_traffic_policy;
  internal_traffic_policy = set_or desired.internal_traffic_policy current.internal_traffic_policy;
  traffic_distribution = set_or desired.traffic_distribution current.traffic_distribution;
  ports = map (preserve_port_defaults current.ports) desired.ports;
}

unfoldable pub mutate_service : Service → Service → Outcome Service
unfolding preserve_service_defaults
mutate_service existing desired = ok (record existing {
  spec = preserve_service_defaults desired.spec existing.spec;
  meta = merge_meta existing.meta desired.meta;
})
