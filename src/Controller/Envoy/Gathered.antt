-- ===== src/Controller/Envoy/Gathered.antt =====
-- The components that Envoy gathers, and those that its configuration routes to.
use supabase_kubernetes.Api.Components.{EnvoySpec, Resource}
use supabase_kubernetes.Api.Projects.{Project}
use supabase_kubernetes.Controller.Component.{list_optional}
use supabase_kubernetes.Controller.Component.Plain.{state_of}
use supabase_kubernetes.Controller.Envoy.{Routed, dependencies}
use supabase_kubernetes.Controller.Envoy.Turns.{
  all_gathered, auth_slot, edge_runtime_slot, is_some-first, last_of, meta_slot, realtime_slot,
  rest_slot, seven, storage_slot, studio_slot, turn,
}
use supabase_kubernetes.Defaults.Component.Envoy.Routes.{build_envoy_template_data, envoy_cluster}
use supabase_kubernetes.Defaults.Context.{Context, Tools, new_context}
use supabase_kubernetes.Go.Outcome.{ok}
use supabase_kubernetes.Kube.Client.{Client}
use supabase_kubernetes.Prelude.{Bool, Option, String, ap, is_some, some, sym, ◌∙◌, ◌≡◌}

-- ListOptional finds a component, or none, and the cluster is enabled accordingly.
abbrev pub Tells :
    {W S : Type 0}
    → Client W (Resource S)
    → (S → String)
    → String
    → String
    → String
    → W
    → Bool
    → Type 0
Tells {S = S} c ref kind namespace project_name w enabled =
    (found : Option (Resource S)) × (list_optional c (λ r. ref r.spec) kind namespace project_name w
      ≡ ok found)
    × (enabled ≡ is_some found)

module _ {W : Type 0} (t : Tools) (r : Routed W) (obj : Resource EnvoySpec)
    (project : Project) where
  -- the context before the loop
  abbrev pub envoy_state : Context
  envoy_state = state_of "Envoy" (λ spec conf. record conf { envoy = some spec }) project obj

  -- The configuration that is rendered enables the cluster of each of the seven components exactly
  -- where ListOptional finds one component of the kind for the Project.
  abbrev pub Routes : String → String → W → Context → Type 0
  Routes namespace project_name w s =
      let routes = build_envoy_template_data t s in
      Tells r.auths (λ x. x.project_ref) "Auth" namespace project_name w routes.auth_cluster.enabled
      × Tells r.rests (λ x. x.project_ref) "Rest" namespace project_name w
          routes.rest_cluster.enabled
      × Tells r.metas (λ x. x.project_ref) "Meta" namespace project_name w
          routes.meta_cluster.enabled
      × Tells r.realtimes (λ x. x.project_ref) "Realtime" namespace project_name w
          routes.realtime_cluster.enabled
      × Tells r.storages (λ x. x.project_ref) "Storage" namespace project_name w
          routes.storage_cluster.enabled
      × Tells r.studios (λ x. x.project_ref) "Studio" namespace project_name w
          routes.studio_cluster.enabled
      × Tells r.edge_runtimes (λ x. x.project_ref) "EdgeRuntime" namespace project_name w
          routes.functions_cluster.enabled

  pub all_gathered-Routes :
      (namespace project_name : String) (w : W) (s : Context)
      → all_gathered (dependencies r namespace project_name) envoy_state w ≡ ok s
      → Routes namespace project_name w s
  unfolding dependencies state_of new_context build_envoy_template_data envoy_cluster
  all_gathered-Routes namespace project_name w s run =
      let (f1, found1, s1, e1, run1) =
        turn r.auths (λ x. x.project_ref) "Auth" namespace project_name auth_slot _ envoy_state s w
          run in
      let (f2, found2, s2, e2, run2) =
        turn r.rests (λ x. x.project_ref) "Rest" namespace project_name rest_slot _ s1 s w run1 in
      let (f3, found3, s3, e3, run3) =
        turn r.metas (λ x. x.project_ref) "Meta" namespace project_name meta_slot _ s2 s w run2 in
      let (f4, found4, s4, e4, run4) =
        turn r.realtimes (λ x. x.project_ref) "Realtime" namespace project_name realtime_slot _ s3 s
          w run3 in
      let (f5, found5, s5, e5, run5) =
        turn r.storages (λ x. x.project_ref) "Storage" namespace project_name storage_slot _ s4 s w
          run4 in
      let (f6, found6, s6, e6, run6) =
        turn r.studios (λ x. x.project_ref) "Studio" namespace project_name studio_slot _ s5 s w
          run5 in
      let (f7, found7, s7, e7, run7) =
        turn r.edge_runtimes (λ x. x.project_ref) "EdgeRuntime" namespace project_name
          edge_runtime_slot _ s6 s w run6 in
      let all =
        seven f1 f2 f3 f4 f5 f6 f7 envoy_state.spec s1.spec s2.spec s3.spec s4.spec s5.spec s6.spec
          s7.spec e1 e2 e3 e4 e5 e6 e7 in
      let last = sym (last_of s7 s w run7) in
      (
        (
          f1,
          found1,
          ap (λ (x : Context). is_some x.spec.auth) last ∙ ap is_some (all.0) ∙ is_some-first f1,
        ),
        (
          f2,
          found2,
          ap (λ (x : Context). is_some x.spec.rest) last ∙ ap is_some (all.1) ∙ is_some-first f2,
        ),
        (
          f3,
          found3,
          ap (λ (x : Context). is_some x.spec.meta) last ∙ ap is_some (all.2) ∙ is_some-first f3,
        ),
        (
          f4,
          found4,
          ap (λ (x : Context). is_some x.spec.realtime) last
              ∙ ap is_some (all.3)
              ∙ is_some-first f4,
        ),
        (
          f5,
          found5,
          ap (λ (x : Context). is_some x.spec.storage) last ∙ ap is_some (all.4) ∙ is_some-first f5,
        ),
        (
          f6,
          found6,
          ap (λ (x : Context). is_some x.spec.studio) last ∙ ap is_some (all.5) ∙ is_some-first f6,
        ),
        (
          f7,
          found7,
          ap (λ (x : Context). is_some x.spec.edge_runtime) last
              ∙ ap is_some (all.6)
              ∙ is_some-first f7,
        ),
      )
