-- ===== src/Reconciler/Mutate/Service/Laws.antt =====
-- MutateService and what the API server has filled in.
use mathlib.Core.Path.{ap₂}
use supabase_kubernetes.Go.Outcome.{ok}
use supabase_kubernetes.Kube.Core.{Service, ServicePort, ServiceSpec}
use supabase_kubernetes.Kube.Meta.{Opaque}
use supabase_kubernetes.Prelude.{
  All, List, Option, Option-cases, [], arith, eq_iff, inl, inr, map, none, refl, some, ◌∷◌, ◌≡◌,
  ◌≢◌,
}
use supabase_kubernetes.Reconciler.Mutate.Service.{
  find_service_port, mutate_service, preserve_port_defaults, preserve_service_defaults,
}
use supabase_kubernetes.Reconciler.Mutate.Service.Settled.{
  HasNamedPorts, IsSettled, NumberSettled-number_or, OptionSettled-set_or, PortSettled,
  PortsSettled, TargetSettled-target_or, TextSettled-text_or, number_or_settled, set_or_settled,
  target_or_settled, text_or_settled,
}
use supabase_kubernetes.Reconciler.StringMap.{merge_string_maps_idem}

-- Each desired port finds the port at its own place.
abbrev FindsAll : (ServicePort → Option ServicePort) → List ServicePort → List ServicePort → Type 0
FindsAll f [] [] = Unit
FindsAll f (d ∷ ds) (p ∷ ps) = (f d ≡ some p) × FindsAll f ds ps
FindsAll f _ _ = ⊥

FindsAll-cons :
    (p : ServicePort) (all ds ps : List ServicePort)
    → All (λ e. p.name ≢ e.name) ds
    → HasNamedPorts ds
    → FindsAll (find_service_port all) ds ps
    → FindsAll (find_service_port (p ∷ all)) ds ps
unfolding find_service_port
FindsAll-cons p all [] [] n u h = tt
FindsAll-cons p all (d ∷ ds) (q ∷ qs) n u h =
    (ground (arith, eq_iff d.name "", eq_iff p.name d.name), FindsAll-cons p all ds qs n.1 u.2 h.1)
FindsAll-cons p all [] (q ∷ qs) n u h = h
FindsAll-cons p all (d ∷ ds) [] n u h = h

FindsAll-settled :
    (ds ps : List ServicePort)
    → HasNamedPorts ds
    → PortsSettled ds ps
    → FindsAll (find_service_port ps) ds ps
FindsAll-settled [] [] n h = tt
FindsAll-settled (d ∷ ds) (p ∷ ps) n h = (
  unfold find_service_port in ground (arith, eq_iff d.name "", eq_iff p.name d.name),
  FindsAll-cons p ps ds ps (rw h.0.name n.1) n.2 (FindsAll-settled ds ps n.2 h.1),
)
FindsAll-settled [] (p ∷ ps) n h = h
FindsAll-settled (d ∷ ds) [] n h = h

preserve_found :
    (all : List ServicePort) (d p : ServicePort)
    → find_service_port all d ≡ some p
    → PortSettled d p
    → preserve_port_defaults all d ≡ p
unfolding preserve_port_defaults
preserve_found all d p e h = ground (
  arith,
  number_or_settled d.node_port p.node_port h.node_port,
  text_or_settled d.protocol p.protocol h.protocol,
  target_or_settled d.target_port p.target_port h.target_port,
)

map_found :
    (all ds ps : List ServicePort)
    → FindsAll (find_service_port all) ds ps
    → PortsSettled ds ps
    → map (preserve_port_defaults all) ds ≡ ps
map_found all [] [] f h = refl
map_found all (d ∷ ds) (p ∷ ps) f h =
    ap₂ ◌∷◌ (preserve_found all d p f.0 h.0) (map_found all ds ps f.1 h.1)
map_found all [] (p ∷ ps) f h = absurd h
map_found all (d ∷ ds) [] f h = absurd h

PortSettled-refl : (d : ServicePort) → PortSettled d d
PortSettled-refl d = record {
  name = refl;
  port = refl;
  rest = refl;
  protocol = inr refl;
  node_port = inr refl;
  target_port = inr refl;
}

PortSettled-preserve :
    (all : List ServicePort) (d : ServicePort) → PortSettled d (preserve_port_defaults all d)
PortSettled-preserve all d = elim (Option-cases (find_service_port all d)) [
  | inl e ↦ unfold preserve_port_defaults in rw (e, preserve_port_defaults) (PortSettled-refl d)
  | inr (p, e) ↦
      unfold preserve_port_defaults in
      rw (e, preserve_port_defaults)
        (record {
          name = refl;
          port = refl;
          rest = refl;
          protocol = TextSettled-text_or d.protocol p.protocol;
          node_port = NumberSettled-number_or d.node_port p.node_port;
          target_port = TargetSettled-target_or d.target_port p.target_port;
        })
]

PortsSettled-preserve :
    (all ds : List ServicePort) → PortsSettled ds (map (preserve_port_defaults all) ds)
PortsSettled-preserve all [] = tt
PortsSettled-preserve all (d ∷ ds) = (PortSettled-preserve all d, PortsSettled-preserve all ds)

-- The mutated spec agrees with the desired one wherever that is set.
pub preserve_service_defaults-IsSettled :
    {Full : Opaque → Type 0} (desired current : ServiceSpec)
    → IsSettled Full desired (preserve_service_defaults desired current)
unfolding preserve_service_defaults
preserve_service_defaults-IsSettled d c = record {
  cluster_ip = TextSettled-text_or d.cluster_ip c.cluster_ip;
  cluster_ips = OptionSettled-set_or d.cluster_ips c.cluster_ips;
  ip_families = OptionSettled-set_or d.ip_families c.ip_families;
  ip_family_policy = OptionSettled-set_or d.ip_family_policy c.ip_family_policy;
  health_check_node_port =
      NumberSettled-number_or d.health_check_node_port c.health_check_node_port;
  allocate_load_balancer_node_ports =
      OptionSettled-set_or d.allocate_load_balancer_node_ports c.allocate_load_balancer_node_ports;
  session_affinity = TextSettled-text_or d.session_affinity c.session_affinity;
  external_traffic_policy = TextSettled-text_or d.external_traffic_policy c.external_traffic_policy;
  internal_traffic_policy =
      OptionSettled-set_or d.internal_traffic_policy c.internal_traffic_policy;
  traffic_distribution = OptionSettled-set_or d.traffic_distribution c.traffic_distribution;
  ports = PortsSettled-preserve c.ports d.ports;
  type = inr refl;
  selector = refl;
  rest = λ _. refl;
}

-- A settled spec is left as it is, if the desired ports are named and the server has chosen neither
-- the type nor one of the fields that `rest` gathers.
pub preserve_service_defaults_fixed :
    {Full : Opaque → Type 0} (desired current : ServiceSpec)
    → HasNamedPorts desired.ports
    → current.type ≡ desired.type
    → current.rest ≡ desired.rest
    → IsSettled Full desired current
    → preserve_service_defaults desired current ≡ current
unfolding preserve_service_defaults
preserve_service_defaults_fixed d c n same_type same_rest h =
    let same_ports : map (preserve_port_defaults c.ports) d.ports ≡ c.ports =
      map_found c.ports d.ports c.ports (FindsAll-settled d.ports c.ports n h.ports) h.ports in
    cc (
      text_or_settled d.cluster_ip c.cluster_ip h.cluster_ip,
      set_or_settled d.cluster_ips c.cluster_ips h.cluster_ips,
      set_or_settled d.ip_families c.ip_families h.ip_families,
      set_or_settled d.ip_family_policy c.ip_family_policy h.ip_family_policy,
      number_or_settled d.health_check_node_port c.health_check_node_port h.health_check_node_port,
      set_or_settled d.allocate_load_balancer_node_ports c.allocate_load_balancer_node_ports
          h.allocate_load_balancer_node_ports,
      text_or_settled d.session_affinity c.session_affinity h.session_affinity,
      text_or_settled d.external_traffic_policy c.external_traffic_policy h.external_traffic_policy,
      set_or_settled d.internal_traffic_policy c.internal_traffic_policy h.internal_traffic_policy,
      set_or_settled d.traffic_distribution c.traffic_distribution h.traffic_distribution,
      same_ports,
      same_type,
      h.selector,
      same_rest,
    )

-- A second run of MutateService, with the same desired Service of named ports, changes nothing.
pub mutate_service_idem :
    (existing desired mutated : Service)
    → HasNamedPorts desired.spec.ports
    → mutate_service existing desired ≡ ok mutated
    → mutate_service mutated desired ≡ ok mutated
unfolding preserve_service_defaults
mutate_service_idem existing desired mutated n e =
    let settled =
      preserve_service_defaults-IsSettled {Full = λ _. Unit} desired.spec existing.spec in
    let again =
      preserve_service_defaults_fixed desired.spec
        (preserve_service_defaults desired.spec existing.spec) n refl refl settled in
    let labelled = merge_string_maps_idem existing.meta.annotations desired.meta.annotations in
    unfold mutate_service in ground arith

find_unnamed :
    (ports : List ServicePort) (d : ServicePort)
    → d.name ≡ ""
    → d.protocol ≡ ""
    → All (λ p. p.protocol ≢ "") ports
    → find_service_port ports d ≡ none
unfolding find_service_port
find_unnamed [] d n p h = refl
find_unnamed (q ∷ qs) d n p h =
    ground (arith, eq_iff d.name "", eq_iff q.protocol d.protocol, find_unnamed qs d n p h.1)

-- An unnamed port with no protocol never finds its counterpart among ports whose protocol the API
-- server has set, so that the node port, target port and protocol of the cluster are dropped.
pub unnamed_port_not_preserved :
    (ports : List ServicePort) (d : ServicePort)
    → d.name ≡ ""
    → d.protocol ≡ ""
    → All (λ p. p.protocol ≢ "") ports
    → preserve_port_defaults ports d ≡ d
unfolding preserve_port_defaults
unnamed_port_not_preserved ports d n p h =
    rw (find_unnamed ports d n p h, preserve_port_defaults) refl
