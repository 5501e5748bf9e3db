-- ===== src/Tests/Services.antt =====
-- The theorems on Services at concrete objects.
use supabase_kubernetes.Go.GoMap.{nil}
use supabase_kubernetes.Go.Outcome.{Outcome, ok}
use supabase_kubernetes.Kube.Core.{Service, ServicePort, ServiceSpec}
use supabase_kubernetes.Kube.Meta.{Opaque, object_meta}
use supabase_kubernetes.Prelude.{List, String, [], inr, none, refl, some, ℕ, ◌∷◌, ◌≡◌}
use supabase_kubernetes.Reconciler.Mutate.Service.{
  find_service_port, mutate_service, preserve_port_defaults, preserve_service_defaults,
}
use supabase_kubernetes.Reconciler.Mutate.Service.Laws.{unnamed_port_not_preserved}
use supabase_kubernetes.Reconciler.Mutate.Service.Settled.{TextSettled}
use supabase_kubernetes.Reconciler.StringMap.{merge_string_maps}
use supabase_kubernetes.Tests.Ensure.{empty_world}
use supabase_kubernetes.Tests.World.{World}

abbrev pub port : String → String → ℕ → ServicePort
port name protocol node_port = record {
  name = name;
  protocol = protocol;
  port = 5432;
  target_port = record { int_val = 0; str_val = "" };
  node_port = node_port;
  rest = "";
}

abbrev pub spec_with : String → List ServicePort → ServiceSpec
spec_with cluster_ip ports = record {
  type = "ClusterIP";
  selector = nil;
  cluster_ip = cluster_ip;
  cluster_ips = none;
  ip_families = none;
  ip_family_policy = none;
  health_check_node_port = 0;
  allocate_load_balancer_node_ports = none;
  session_affinity = "";
  external_traffic_policy = "";
  internal_traffic_policy = none;
  traffic_distribution = none;
  ports = ports;
  rest = "";
}

-- as the operator asks for it, and as the API server has completed it
abbrev pub asked : ServiceSpec
asked = spec_with "" (port "db" "" 0 ∷ [])

abbrev completed : ServiceSpec
completed = spec_with "10.0.0.7" (port "db" "TCP" 30123 ∷ [])

abbrev pub service_of : ServiceSpec → Service
service_of spec = record { meta = object_meta "s" "ns" nil; spec = spec; rest = "" }

completed_run : mutate_service (service_of completed) (service_of asked) ≡ ok (service_of completed)
unfolding mutate_service preserve_service_defaults preserve_port_defaults find_service_port
    merge_string_maps
completed_run = refl

unnamed_port_not_preserved_example :
    preserve_port_defaults (port "" "TCP" 30123 ∷ []) (port "" "" 0) ≡ port "" "" 0
unnamed_port_not_preserved_example =
    unnamed_port_not_preserved (port "" "TCP" 30123 ∷ []) (port "" "" 0) refl refl (λ e. cc, tt)

TextSettled-refl : (s : String) → TextSettled s s
TextSettled-refl s = inr refl

-- the fields that no Service of the operator sets
abbrev HasNoRest : Opaque → Type 0
HasNoRest rest = rest ≡ ""

abbrev world_of_service : Service → World
world_of_service s = record empty_world { service = some s }
