-- ===== src/Controller/EdgeRuntime.antt =====
-- internal/controller/edgeruntime
use supabase_kubernetes.Api.Common.{ResolvedDatabase}
use supabase_kubernetes.Api.Components.{EdgeRuntimeSpec, EnvoySpec, Resource}
use supabase_kubernetes.Api.Projects.{Project}
use supabase_kubernetes.Controller.Common.{ReconcileResult}
use supabase_kubernetes.Controller.Component.{
  Component, require_dependency, resolve_database, start,
}
use supabase_kubernetes.Controller.Component.Plain.{state_of}
use supabase_kubernetes.Controller.Component.Rollout.{deployment_ready}
use supabase_kubernetes.Controller.Component.Run.{
  Cluster, Tasks, conclude, ensure, go_on, reconcile_deployment, reconcile_service,
}
use supabase_kubernetes.Defaults.Component.EdgeRuntime.{
  functions_deployment, functions_deployment_name, functions_service, runtime_config_map,
}
use supabase_kubernetes.Defaults.Context.{Context, with_name}
use supabase_kubernetes.Go.Exec.{Exec}
use supabase_kubernetes.Kube.Client.{Client}
use supabase_kubernetes.Prelude.{String, [], some, ◌∷◌}
use supabase_kubernetes.Reconciler.Mutate.Simple.{mutate_config_map}
use supabase_kubernetes.Reconciler.Mutate.Workloads.{mutate_deployment}

-- the context of a run
unfoldable pub edge_runtime_state :
    Project → Resource EdgeRuntimeSpec → Resource EnvoySpec → Context
unfolding state_of
edge_runtime_state project obj envoy =
    let state =
      state_of "EdgeRuntime" (λ spec conf. record conf { edge_runtime = some spec }) project obj in
    with_name "Envoy" envoy.meta.name
      (record state { spec = record state.spec { envoy = some envoy.spec } })

module _ {W : Type 0} (k : Cluster W) (c : Component W (Resource EdgeRuntimeSpec))
    (envoys : Client W (Resource EnvoySpec)) where
  unfoldable pub edge_runtime_tasks : Context → ResolvedDatabase → Tasks W
  unfolding ensure reconcile_service reconcile_deployment
  edge_runtime_tasks state db =
      (
        "RuntimeConfigFailed",
        ensure k k.config_maps mutate_config_map (some (runtime_config_map k.tools state))
            state.owner,
      )
      ∷ (
        "ReconcileFailed",
        reconcile_service k "functions service" state (functions_service k.tools state),
      )
      ∷ (
        "ReconcileFailed",
        reconcile_deployment k mutate_deployment "functions deployment" state
            (functions_deployment k.tools state db),
      )
      ∷ []

  unfoldable pub edge_runtime_resolved :
      Resource EdgeRuntimeSpec
      → Project
      → Resource EnvoySpec
      → ResolvedDatabase
      → Exec W ReconcileResult
  unfolding conclude edge_runtime_tasks edge_runtime_state
  edge_runtime_resolved obj project envoy db =
      let state = edge_runtime_state project obj envoy in
      conclude c obj (edge_runtime_tasks state db) (
        deployment_ready k.deployments.client obj.meta.namespace
          (functions_deployment_name k.tools state))

  unfoldable pub edge_runtime_started : Resource EdgeRuntimeSpec × Project → Exec W ReconcileResult
  unfolding edge_runtime_resolved
  edge_runtime_started (obj, project) =
      go_on (require_dependency c envoys (λ r. r.spec.project_ref) "Envoy" obj)
        λ envoy. go_on (resolve_database c obj project) (edge_runtime_resolved obj project envoy)

  -- Reconcile
  unfoldable pub reconcile_edge_runtime : (namespace name : String) → Exec W ReconcileResult
  unfolding edge_runtime_started
  reconcile_edge_runtime namespace name = go_on (start c namespace name) edge_runtime_started
