-- ===== src/Reconciler/Mutate/Service/Settled.antt =====
-- A Service that is the desired one, with values of the API server for what is not set.
-- `current` is `desired` where that is set.
use supabase_kubernetes.Kube.Core.{ServicePort, ServiceSpec}
use supabase_kubernetes.Kube.Meta.{IntOrString, Opaque}
use supabase_kubernetes.Prelude.{
  All, List, Option, String, [], arith, eq_iff, none, refl, some, sym, ℕ, ◌∷◌, ◌≡◌, ◌≢◌, ◌⊎◌,
}
use supabase_kubernetes.Reconciler.Mutate.Pvc.{set_or}
use supabase_kubernetes.Reconciler.Mutate.Service.{number_or, target_or, text_or}

abbrev pub TextSettled : String → String → Type 0
TextSettled desired current = (desired ≡ "") ⊎ (current ≡ desired)

abbrev pub NumberSettled : ℕ → ℕ → Type 0
NumberSettled desired current = (desired ≡ 0) ⊎ (current ≡ desired)

abbrev pub OptionSettled : {A : Type 0} → Option A → Option A → Type 0
OptionSettled none current = Unit
OptionSettled (some v) current = current ≡ some v

abbrev pub TargetSettled : IntOrString → IntOrString → Type 0
TargetSettled desired current =
    ((desired.int_val ≡ 0) × (desired.str_val ≡ "")) ⊎ (current ≡ desired)

pub record PortSettled (desired current : ServicePort) : Type 0 where
  pub name : current.name ≡ desired.name
  pub port : current.port ≡ desired.port
  pub rest : current.rest ≡ desired.rest
  pub protocol : TextSettled desired.protocol current.protocol
  pub node_port : NumberSettled desired.node_port current.node_port
  pub target_port : TargetSettled desired.target_port current.target_port

-- The ports correspond one to one, in order.
abbrev pub PortsSettled : List ServicePort → List ServicePort → Type 0
PortsSettled [] [] = Unit
PortsSettled (d ∷ ds) (p ∷ ps) = PortSettled d p × PortsSettled ds ps
PortsSettled _ _ = ⊥

-- `current` is `desired` with values that the API server may have chosen for what is not set. `Full`
-- says of the fields that `rest` gathers that the server chooses none of them.
pub record IsSettled (Full : Opaque → Type 0) (desired current : ServiceSpec) : Type 0 where
  pub cluster_ip : TextSettled desired.cluster_ip current.cluster_ip
  pub cluster_ips : OptionSettled desired.cluster_ips current.cluster_ips
  pub ip_families : OptionSettled desired.ip_families current.ip_families
  pub ip_family_policy : OptionSettled desired.ip_family_policy current.ip_family_policy
  pub health_check_node_port :
      NumberSettled desired.health_check_node_port current.health_check_node_port
  pub allocate_load_balancer_node_ports :
      OptionSettled desired.allocate_load_balancer_node_ports
        current.allocate_load_balancer_node_ports
  pub session_affinity : TextSettled desired.session_affinity current.session_affinity
  pub external_traffic_policy :
      TextSettled desired.external_traffic_policy current.external_traffic_policy
  pub internal_traffic_policy :
      OptionSettled desired.internal_traffic_policy current.internal_traffic_policy
  pub traffic_distribution : OptionSettled desired.traffic_distribution current.traffic_distribution
  pub ports : PortsSettled desired.ports current.ports
  pub type : TextSettled desired.type current.type
  pub selector : current.selector ≡ desired.selector
  pub rest : Full desired.rest → current.rest ≡ desired.rest

-- The ports have distinct names, none of them empty, as a Service of several ports must have.
abbrev pub HasNamedPorts : List ServicePort → Type 0
HasNamedPorts [] = Unit
HasNamedPorts (d ∷ ds) = (d.name ≢ "") × All (λ e. d.name ≢ e.name) ds × HasNamedPorts ds

pub text_or_settled : (d c : String) → TextSettled d c → text_or d c ≡ c
text_or_settled d c h = ground (arith, eq_iff d "")

pub TextSettled-text_or : (d c : String) → TextSettled d (text_or d c)
TextSettled-text_or d c = ground (arith, eq_iff d "")

pub number_or_settled : (d c : ℕ) → NumberSettled d c → number_or d c ≡ c
number_or_settled d c h = ground arith

pub NumberSettled-number_or : (d c : ℕ) → NumberSettled d (number_or d c)
NumberSettled-number_or d c = ground arith

pub set_or_settled : {A : Type 0} (d c : Option A) → OptionSettled d c → set_or d c ≡ c
set_or_settled none c h = refl
set_or_settled (some v) c h = sym h

pub OptionSettled-set_or : {A : Type 0} (d c : Option A) → OptionSettled d (set_or d c)
OptionSettled-set_or none c = tt
OptionSettled-set_or (some v) c = refl

pub target_or_settled : (d c : IntOrString) → TargetSettled d c → target_or d c ≡ c
target_or_settled d c h = ground (arith, eq_iff d.str_val "")

pub TargetSettled-target_or : (d c : IntOrString) → TargetSettled d (target_or d c)
TargetSettled-target_or d c = ground (arith, eq_iff d.str_val "")
