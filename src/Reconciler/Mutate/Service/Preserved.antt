-- ===== src/Reconciler/Mutate/Service/Preserved.antt =====
-- What MutateService takes from the desired Service and what from the one of the cluster, told
-- without the functions that it is made of.
use supabase_kubernetes.Go.GoMap.{index}
use supabase_kubernetes.Kube.Core.{Service, ServicePort}
use supabase_kubernetes.Kube.Meta.{IntOrString}
use supabase_kubernetes.Prelude.{All, List, Option, String, [], none, some, ℕ, ◌∷◌, ◌≡◌, ◌≢◌, ◌⊎◌}
use supabase_kubernetes.Reconciler.StringMap.{preferred}

-- `result` is `desired` where that is set, and else `current`.
abbrev pub TextTaken : (desired current result : String) → Type 0
TextTaken d c r = ((d ≢ "") × (r ≡ d)) ⊎ ((d ≡ "") × (r ≡ c))

abbrev pub NumberTaken : (desired current result : ℕ) → Type 0
NumberTaken d c r = ((d ≢ 0) × (r ≡ d)) ⊎ ((d ≡ 0) × (r ≡ c))

abbrev pub OptionTaken : {A : Type 0} → (desired current result : Option A) → Type 0
OptionTaken none c r = r ≡ c
OptionTaken (some v) c r = r ≡ some v

abbrev pub IsUnset : IntOrString → Type 0
IsUnset t = (t.int_val ≡ 0) × (t.str_val ≡ "")

abbrev pub TargetTaken : (desired current result : IntOrString) → Type 0
TargetTaken d c r = ((¬ IsUnset d) × (r ≡ d)) ⊎ (IsUnset d × (r ≡ c))

-- A port of the cluster is the counterpart of a desired one by its name, or, where the desired one
-- has none, by its number and protocol.
abbrev pub Matches : (desired current : ServicePort) → Type 0
Matches d p =
    ((d.name ≢ "") × (p.name ≡ d.name))
    ⊎ ((d.name ≡ "") × (p.port ≡ d.port) × (p.protocol ≡ d.protocol))

-- the first counterpart among the ports of the cluster
pub data IsFirst (d : ServicePort) : List ServicePort → ServicePort → Type 0 where
  here : {p : ServicePort} {ps : List ServicePort} → Matches d p → IsFirst d (p ∷ ps) p
  there :
      {p q : ServicePort} {ps : List ServicePort}
      → ¬ Matches d q
      → IsFirst d ps p
      → IsFirst d (q ∷ ps) p

pub record PortFilled (desired current result : ServicePort) : Type 0 where
  pub name : result.name ≡ desired.name
  pub port : result.port ≡ desired.port
  pub rest : result.rest ≡ desired.rest
  pub protocol : TextTaken desired.protocol current.protocol result.protocol
  pub node_port : NumberTaken desired.node_port current.node_port result.node_port
  pub target_port : TargetTaken desired.target_port current.target_port result.target_port

-- A desired port is filled from its first counterpart, and stays as it is where it has none.
abbrev pub PortTaken : List ServicePort → (desired result : ServicePort) → Type 0
PortTaken current d r =
    (All (λ p. ¬ Matches d p) current × (r ≡ d))
    ⊎ ((p : ServicePort) × IsFirst d current p × PortFilled d p r)

abbrev pub PortsTaken : (current desired result : List ServicePort) → Type 0
PortsTaken current [] [] = Unit
PortsTaken current (d ∷ ds) (r ∷ rs) = PortTaken current d r × PortsTaken current ds rs
PortsTaken current _ _ = ⊥

-- The mutated Service has the desired spec, with the values of the cluster for what it leaves unset,
-- the desired labels, the desired annotations over the existing ones, and all else of the cluster.
pub record IsPreserved (existing desired mutated : Service) : Type 0 where
  pub cluster_ip :
      TextTaken desired.spec.cluster_ip existing.spec.cluster_ip mutated.spec.cluster_ip
  pub cluster_ips :
      OptionTaken desired.spec.cluster_ips existing.spec.cluster_ips mutated.spec.cluster_ips
  pub ip_families :
      OptionTaken desired.spec.ip_families existing.spec.ip_families mutated.spec.ip_families
  pub ip_family_policy :
      OptionTaken desired.spec.ip_family_policy existing.spec.ip_family_policy
        mutated.spec.ip_family_policy
  pub health_check_node_port :
      NumberTaken desired.spec.health_check_node_port existing.spec.health_check_node_port
        mutated.spec.health_check_node_port
  pub allocate_load_balancer_node_ports :
      OptionTaken desired.spec.allocate_load_balancer_node_ports
        existing.spec.allocate_load_balancer_node_ports
        mutated.spec.allocate_load_balancer_node_ports
  pub session_affinity :
      TextTaken desired.spec.session_affinity existing.spec.session_affinity
        mutated.spec.session_affinity
  pub external_traffic_policy :
      TextTaken desired.spec.external_traffic_policy existing.spec.external_traffic_policy
        mutated.spec.external_traffic_policy
  pub internal_traffic_policy :
      OptionTaken desired.spec.internal_traffic_policy existing.spec.internal_traffic_policy
        mutated.spec.internal_traffic_policy
  pub traffic_distribution :
      OptionTaken desired.spec.traffic_distribution existing.spec.traffic_distribution
        mutated.spec.traffic_distribution
  pub ports : PortsTaken existing.spec.ports desired.spec.ports mutated.spec.ports
  pub type : mutated.spec.type ≡ desired.spec.type
  pub selector : mutated.spec.selector ≡ desired.spec.selector
  pub rest : mutated.spec.rest ≡ desired.spec.rest
  pub labels : mutated.meta.labels ≡ desired.meta.labels
  pub annotations :
      (k : String)
      → index mutated.meta.annotations k
        ≡ preferred (index desired.meta.annotations k) (index existing.meta.annotations k)
  pub others : mutated ≡ record existing {
    spec = mutated.spec;
    meta = record existing.meta {
      labels = mutated.meta.labels;
      annotations = mutated.meta.annotations;
    };
  }
