-- ===== src/Reconciler/Converge/Services.antt =====
-- EnsureResource with MutateService, called again.
use supabase_kubernetes.Go.Outcome.{ok}
use supabase_kubernetes.Kube.Client.{Client}
use supabase_kubernetes.Kube.Core.{Service}
use supabase_kubernetes.Kube.Meta.{Opaque}
use supabase_kubernetes.Prelude.{◌≡◌, ◌≢◌}
use supabase_kubernetes.Reconciler.Converge.{IsPlain, KeepsMeta}
use supabase_kubernetes.Reconciler.Mutate.Service.Settled.{HasNamedPorts, IsSettled}

-- the type of a Service stays what it is
abbrev pub KeepsType : Service → Service → Type 0
KeepsType old x = old.spec.type ≡ x.spec.type

module _ (Full : Opaque → Type 0) where
  -- The server keeps what the client sets of a Service, and may choose a value for each field that the
  -- client leaves unset, the type included. Of the fields that the code never names, which `rest`
  -- gathers, it chooses none where `Full` holds.
  pub record StoresService (x y : Service) : Type 0 where
    pub spec : IsSettled Full x.spec y.spec
    pub meta : KeepsMeta x.meta y.meta

  -- What is asked of a desired Service: it does not ask for an empty owner UID, its ports have
  -- distinct names that are not empty, its type is set, the server chooses none of its other fields,
  -- and a Service of this name that the cluster has is of the same type.
  pub record IsAsked {W : Type 0} (c : Client W Service) (w : W) (desired : Service) : Type 0 where
    pub plain : IsPlain desired.meta
    pub named : HasNamedPorts desired.spec.ports
    pub typed : desired.spec.type ≢ ""
    pub full : Full desired.spec.rest
    pub same_type :
        (existing : Service)
        → c.get desired.meta.namespace desired.meta.name w ≡ ok existing
        → KeepsType existing desired
