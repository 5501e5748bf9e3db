-- ===== src/Controller/Envoy/Turns.antt =====
-- What the turns of Envoy's loop over its dependencies make of the configuration.
use supabase_kubernetes.Api.Components.{
  AuthSpec, EdgeRuntimeSpec, MetaSpec, RealtimeSpec, Resource, RestSpec, StorageSpec, StudioSpec,
}
use supabase_kubernetes.Controller.Component.{list_optional}
use supabase_kubernetes.Controller.Envoy.{Dependency, applied_to, dependency}
use supabase_kubernetes.Defaults.Context.{Configuration, Context}
use supabase_kubernetes.Go.Outcome.{Outcome, ok}
use supabase_kubernetes.Go.Pure.{bind-eq-ok, ◌>>=◌}
use supabase_kubernetes.Kube.Client.{Client}
use supabase_kubernetes.Prelude.{
  List, Option, String, [], ap, is_some, none, refl, some, sym, ◌∙◌, ◌∷◌, ◌≡◌,
}

-- the loop over the dependencies, apart from the statuses that it may write
unfoldable pub all_gathered : {W : Type 0} → List (Dependency W) → Context → W → Outcome Context
all_gathered [] state w = ok state
all_gathered (d ∷ ds) state w = d state w >>= λ s. all_gathered ds s w

abbrev spec_of : {S : Type 0} → Option (Resource S) → Option S
spec_of none = none
spec_of (some r) = some r.spec

abbrev first : {S : Type 0} → Option S → Option S → Option S
first none o = o
first (some s) o = some s

pub is_some-first :
    {S : Type 0} (found : Option (Resource S))
    → is_some (first (spec_of found) none) ≡ is_some found
is_some-first none = refl
is_some-first (some r) = refl

-- a component of the configuration
pub record Slot (S : Type 0) : Type 0 where
  pub set : Option S → Configuration → Configuration
  pub get : Configuration → Option S
  pub keeps : (conf : Configuration) → set (get conf) conf ≡ conf

abbrev pub auth_slot : Slot AuthSpec
auth_slot = record {
  set = λ o conf. record conf { auth = o };
  get = λ conf. conf.auth;
  keeps = λ conf. refl;
}

abbrev pub rest_slot : Slot RestSpec
rest_slot = record {
  set = λ o conf. record conf { rest = o };
  get = λ conf. conf.rest;
  keeps = λ conf. refl;
}

abbrev pub meta_slot : Slot MetaSpec
meta_slot = record {
  set = λ o conf. record conf { meta = o };
  get = λ conf. conf.meta;
  keeps = λ conf. refl;
}

abbrev pub realtime_slot : Slot RealtimeSpec
realtime_slot = record {
  set = λ o conf. record conf { realtime = o };
  get = λ conf. conf.realtime;
  keeps = λ conf. refl;
}

abbrev pub storage_slot : Slot StorageSpec
storage_slot = record {
  set = λ o conf. record conf { storage = o };
  get = λ conf. conf.storage;
  keeps = λ conf. refl;
}

abbrev pub studio_slot : Slot StudioSpec
studio_slot = record {
  set = λ o conf. record conf { studio = o };
  get = λ conf. conf.studio;
  keeps = λ conf. refl;
}

abbrev pub edge_runtime_slot : Slot EdgeRuntimeSpec
edge_runtime_slot = record {
  set = λ o conf. record conf { edge_runtime = o };
  get = λ conf. conf.edge_runtime;
  keeps = λ conf. refl;
}

-- What a turn of the loop makes of the configuration.
abbrev turned : {S : Type 0} → Slot S → Option (Resource S) → Configuration → Configuration
turned slot found conf = slot.set (first (spec_of found) (slot.get conf)) conf

applied_spec :
    {S : Type 0} (kind : String) (slot : Slot S) (found : Option (Resource S)) (state : Context)
    → (applied_to kind (λ s. slot.set (some s)) found state).spec ≡ turned slot found state.spec
unfolding applied_to
applied_spec kind slot none state = sym (slot.keeps state.spec)
applied_spec kind slot (some r) state = refl

-- A loop that ends has found what its first turn asks for.
pub turn :
    {W S : Type 0} (c : Client W (Resource S)) (ref : S → String)
    (kind namespace project_name : String) (slot : Slot S) (ds : List (Dependency W))
    (state s : Context) (w : W)
    → all_gathered
        (dependency c ref kind (λ x. slot.set (some x)) namespace project_name ∷ ds)
        state
        w
      ≡ ok s
    → (found : Option (Resource S)) × (list_optional c
          (λ r. ref r.spec)
          kind
          namespace
          project_name
          w
        ≡ ok found)
      × (mid : Context) × (mid.spec ≡ turned slot found state.spec)
      × (all_gathered ds mid w ≡ ok s)
unfolding all_gathered dependency
turn c ref kind namespace project_name slot ds state s w run =
    let (mid, read, rest) =
      bind-eq-ok (dependency c ref kind (λ x. slot.set (some x)) namespace project_name state w)
        (λ s. all_gathered ds s w) run in
    let (found, listed, same) =
      bind-eq-ok (list_optional c (λ r. ref r.spec) kind namespace project_name w)
        (λ found. ok (applied_to kind (λ x. slot.set (some x)) found state)) read in
    (
      found,
      listed,
      mid,
      sym (ap (λ (x : Context). x.spec) (ok_value same)) ∙ applied_spec kind slot found state,
      rest,
    )
  where
    ok_value : {x y : Context} → ◌≡◌ {A = Outcome Context} (ok x) (ok y) → x ≡ y
    ok_value h = cc

pub last_of : {W : Type 0} (x s : Context) (w : W) → all_gathered [] x w ≡ ok s → x ≡ s
unfolding all_gathered
last_of x s w h = cc

-- What seven turns make of the components of the configuration.
pub seven :
    (f1 : Option (Resource AuthSpec)) (f2 : Option (Resource RestSpec))
    (f3 : Option (Resource MetaSpec)) (f4 : Option (Resource RealtimeSpec))
    (f5 : Option (Resource StorageSpec)) (f6 : Option (Resource StudioSpec))
    (f7 : Option (Resource EdgeRuntimeSpec)) (conf c1 c2 c3 c4 c5 c6 c7 : Configuration)
    → c1 ≡ turned auth_slot f1 conf
    → c2 ≡ turned rest_slot f2 c1
    → c3 ≡ turned meta_slot f3 c2
    → c4 ≡ turned realtime_slot f4 c3
    → c5 ≡ turned storage_slot f5 c4
    → c6 ≡ turned studio_slot f6 c5
    → c7 ≡ turned edge_runtime_slot f7 c6
    → (c7.auth ≡ first (spec_of f1) conf.auth)
      × (c7.rest ≡ first (spec_of f2) conf.rest)
      × (c7.meta ≡ first (spec_of f3) conf.meta)
      × (c7.realtime ≡ first (spec_of f4) conf.realtime)
      × (c7.storage ≡ first (spec_of f5) conf.storage)
      × (c7.studio ≡ first (spec_of f6) conf.studio)
      × (c7.edge_runtime ≡ first (spec_of f7) conf.edge_runtime)
seven f1 f2 f3 f4 f5 f6 f7 conf c1 c2 c3 c4 c5 c6 c7 e1 e2 e3 e4 e5 e6 e7 =
    let whole =
      e7
      ∙ ap (turned edge_runtime_slot f7) (
          e6
          ∙ ap (turned studio_slot f6) (
              e5
              ∙ ap (turned storage_slot f5) (
                  e4
                  ∙ ap (turned realtime_slot f4)
                      (e3 ∙ ap (turned meta_slot f3) (e2 ∙ ap (turned rest_slot f2) (e1)))))) in
    (
      ap (λ (c : Configuration). c.auth) whole,
      ap (λ (c : Configuration). c.rest) whole,
      ap (λ (c : Configuration). c.meta) whole,
      ap (λ (c : Configuration). c.realtime) whole,
      ap (λ (c : Configuration). c.storage) whole,
      ap (λ (c : Configuration). c.studio) whole,
      ap (λ (c : Configuration). c.edge_runtime) whole,
    )
