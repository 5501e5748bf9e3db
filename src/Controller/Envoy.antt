-- ===== src/Controller/Envoy.antt =====
-- internal/controller/envoy
pub mod Turns
pub mod Gathered
pub mod Finished
use supabase_kubernetes.Api.Components.{
  AuthSpec, EdgeRuntimeSpec, EnvoySpec, MetaSpec, RealtimeSpec, Resource, RestSpec, StorageSpec,
  StudioSpec,
}
use supabase_kubernetes.Api.Projects.{Project}
use supabase_kubernetes.Controller.Common.{ReconcileResult}
use supabase_kubernetes.Controller.Component.{Component, list_optional, resolve_database, start}
use supabase_kubernetes.Controller.Component.Plain.{state_of}
use supabase_kubernetes.Controller.Component.Rollout.{deployment_ready}
use supabase_kubernetes.Controller.Component.Run.{
  Cluster, Tasks, conclude, ensure, go_on, or_not_ready, reconcile_deployment, reconcile_service,
}
use supabase_kubernetes.Defaults.Component.Envoy.{
  envoy_deployment, envoy_deployment_name, envoy_secret, envoy_service,
}
use supabase_kubernetes.Defaults.Component.Envoy.Routes.{envoy_config_map}
use supabase_kubernetes.Defaults.Context.{Configuration, Context, with_name}
use supabase_kubernetes.Go.Exec.{Exec, attempt, lift, pure, raise, reads, wrapping}
use supabase_kubernetes.Go.Outcome.{Outcome, ok}
use supabase_kubernetes.Go.Pure.{wrapped, ◌>>=◌}
use supabase_kubernetes.Helper.Env.Hash.{config_map_hash, secret_hash}
use supabase_kubernetes.Kube.Client.{Client}
use supabase_kubernetes.Kube.Core.{ConfigMap, Secret}
use supabase_kubernetes.Prelude.{List, Option, String, [], none, some, ◌∷◌}
use supabase_kubernetes.Reconciler.Mutate.Simple.{mutate_config_map, mutate_secret}
use supabase_kubernetes.Reconciler.Mutate.Workloads.{mutate_deployment}

-- the clients of the components that Envoy routes to
pub record Routed (W : Type 0) : Type 0 where
  pub auths : Client W (Resource AuthSpec)
  pub rests : Client W (Resource RestSpec)
  pub metas : Client W (Resource MetaSpec)
  pub realtimes : Client W (Resource RealtimeSpec)
  pub storages : Client W (Resource StorageSpec)
  pub studios : Client W (Resource StudioSpec)
  pub edge_runtimes : Client W (Resource EdgeRuntimeSpec)

-- `dependency.apply(found)`, where there is one
unfoldable pub applied_to :
    {S : Type 0}
    → String
    → (S → Configuration → Configuration)
    → Option (Resource S)
    → Context
    → Context
applied_to kind with_spec none state = state
applied_to kind with_spec (some found) state =
    with_name kind found.meta.name (record state { spec = with_spec found.spec state.spec })

-- one turn of the loop over the dependencies
abbrev pub Dependency : Type 0 → Type 0
Dependency W = Context → W → Outcome Context

unfoldable pub dependency :
    {W S : Type 0}
    → Client W (Resource S)
    → (S → String)
    → String
    → (S → Configuration → Configuration)
    → (namespace project_name : String) → Dependency W
unfolding applied_to
dependency c ref kind with_spec namespace project_name state w = do
  found ← list_optional c (λ r. ref r.spec) kind namespace project_name w
  ok (applied_to kind with_spec found state)

unfoldable pub dependencies :
    {W : Type 0} → Routed W → (namespace project_name : String) → List (Dependency W)
unfolding dependency
dependencies r ns p =
    dependency r.auths (λ s. s.project_ref) "Auth" (λ s conf. record conf { auth = some s }) ns p
    ∷ dependency r.rests (λ s. s.project_ref) "Rest" (λ s conf. record conf { rest = some s }) ns p
    ∷ dependency r.metas (λ s. s.project_ref) "Meta" (λ s conf. record conf { meta = some s }) ns p
    ∷ dependency r.realtimes (λ s. s.project_ref) "Realtime"
        (λ s conf. record conf { realtime = some s }) ns p
    ∷ dependency r.storages (λ s. s.project_ref) "Storage"
        (λ s conf. record conf { storage = some s }) ns p
    ∷ dependency r.studios (λ s. s.project_ref) "Studio" (λ s conf. record conf { studio = some s })
        ns p
    ∷ dependency r.edge_runtimes (λ s. s.project_ref) "EdgeRuntime"
        (λ s conf. record conf { edge_runtime = some s }) ns p
    ∷ []

module _ {W : Type 0} (k : Cluster W) where
  -- reconcileSecret once the Secret is built
  unfoldable pub ensured_secret : Context → Secret → Exec W String
  unfolding ensure
  ensured_secret state desired =
      attempt
        (ensure k k.secrets (mutate_secret ("username" ∷ "password" ∷ [])) (some desired)
          state.owner)
        raise
        λ _.
          attempt (reads (k.secrets.client.get desired.meta.namespace desired.meta.name)) raise
            λ actual. pure (secret_hash k.tools.digest k.keys actual)

  -- reconcileSecret
  unfoldable pub reconcile_envoy_secret : Context → Exec W String
  unfolding ensured_secret
  reconcile_envoy_secret state =
      attempt (wrapping "building envoy secret" (envoy_secret k.random k.tools state)) raise
        (ensured_secret state)

  -- reconcileConfigMap once the ConfigMap is built
  unfoldable pub ensured_config_map : Context → ConfigMap → Exec W String
  unfolding ensure
  ensured_config_map state desired =
      attempt (ensure k k.config_maps mutate_config_map (some desired) state.owner) raise λ _.
        attempt (reads (k.config_maps.client.get desired.meta.namespace desired.meta.name)) raise
          λ actual. pure (config_map_hash k.tools.digest k.keys actual)

  -- reconcileConfigMap
  unfoldable pub reconcile_envoy_config_map : Context → Exec W String
  unfolding ensured_config_map
  reconcile_envoy_config_map state =
      attempt
        (lift (wrapped "building envoy configmap" (envoy_config_map k.templates k.tools state)))
        raise (ensured_config_map state)

  module _ (c : Component W (Resource EnvoySpec)) (routed : Routed W) where
    -- the loop over the dependencies
    unfoldable pub gather :
        Resource EnvoySpec
        → List (Dependency W)
        → Context
        → (Context → Exec W ReconcileResult)
        → Exec W ReconcileResult
    gather obj [] state next = next state
    gather obj (d ∷ ds) state next =
        or_not_ready c obj "AmbiguousDependency" (reads (d state)) (λ s. gather obj ds s next)

    unfoldable pub envoy_tasks : Context → (config_hash secret_hash : String) → Tasks W
    unfolding reconcile_service reconcile_deployment
    envoy_tasks state config_hash secret_hash =
        ("ReconcileFailed", reconcile_service k "envoy service" state (envoy_service k.tools state))
        ∷ (
          "ReconcileFailed",
          reconcile_deployment k mutate_deployment "envoy deployment" state
              (envoy_deployment k.tools state config_hash secret_hash),
        )
        ∷ []

    -- Reconcile once the dependencies are gathered
    unfoldable pub envoy_gathered : Resource EnvoySpec → Project → Context → Exec W ReconcileResult
    unfolding reconcile_envoy_secret reconcile_envoy_config_map conclude envoy_tasks
    envoy_gathered obj project state = go_on (resolve_database c obj project) λ _.
        or_not_ready c obj "ReconcileFailed" (reconcile_envoy_secret state) λ secret_hash.
          or_not_ready c obj "ReconcileFailed" (reconcile_envoy_config_map state) λ config_hash.
            conclude c obj (envoy_tasks state config_hash secret_hash) (
              deployment_ready k.deployments.client obj.meta.namespace
                (envoy_deployment_name k.tools state))

    unfoldable pub envoy_started : Resource EnvoySpec × Project → Exec W ReconcileResult
    unfolding gather envoy_gathered dependencies
    envoy_started (obj, project) =
        gather obj (dependencies routed obj.meta.namespace project.meta.name)
          (state_of "Envoy" (λ spec conf. record conf { envoy = some spec }) project obj)
          (envoy_gathered obj project)

    -- Reconcile
    unfoldable pub reconcile_envoy : (namespace name : String) → Exec W ReconcileResult
    unfolding envoy_started
    reconcile_envoy namespace name = go_on (start c namespace name) envoy_started
