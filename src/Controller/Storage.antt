-- ===== src/Controller/Storage.antt =====
-- internal/controller/storage
use supabase_kubernetes.Api.Common.{ResolvedDatabase}
use supabase_kubernetes.Api.Components.{Resource, RestSpec, StorageSpec}
use supabase_kubernetes.Api.Projects.{Project}
use supabase_kubernetes.Controller.Common.{ReconcileResult}
use supabase_kubernetes.Controller.Component.{
  Component, require_dependency, resolve_database, start,
}
use supabase_kubernetes.Controller.Component.Plain.{state_of}
use supabase_kubernetes.Controller.Component.Rollout.{stateful_set_ready}
use supabase_kubernetes.Controller.Component.Run.{
  Cluster, Tasks, conclude, ensure, go_on, reconcile_pvc, reconcile_service, reconcile_stateful_set,
}
use supabase_kubernetes.Defaults.Component.Storage.{
  storage_pvc, storage_secret, storage_service, storage_stateful_set_name,
}
use supabase_kubernetes.Defaults.Component.Storage.StatefulSet.{storage_stateful_set}
use supabase_kubernetes.Defaults.Context.{Context, with_name}
use supabase_kubernetes.Go.Exec.{Exec, attempt, raise, wrapping}
use supabase_kubernetes.Kube.Client.{Client}
use supabase_kubernetes.Prelude.{String, [], some, ◌∷◌}
use supabase_kubernetes.Reconciler.Mutate.Simple.{mutate_secret}

-- the context of a run
unfoldable pub storage_state : Project → Resource StorageSpec → Resource RestSpec → Context
unfolding state_of
storage_state project obj rest =
    let state = state_of "Storage" (λ spec conf. record conf { storage = some spec }) project obj in
    with_name "Rest" rest.meta.name
      (record state { spec = record state.spec { rest = some rest.spec } })

module _ {W : Type 0} (k : Cluster W) (c : Component W (Resource StorageSpec))
    (rests : Client W (Resource RestSpec)) where
  -- reconcileSecret
  unfoldable pub reconcile_storage_secret : Context → Exec W (Unit {0})
  unfolding ensure
  reconcile_storage_secret state =
      attempt (wrapping "building storage secret" (storage_secret k.random k.tools state)) raise
        λ secret.
          ensure k k.secrets (mutate_secret ("accessKeyId" ∷ "accessKeySecret" ∷ [])) secret
            state.owner

  unfoldable pub storage_tasks : Context → ResolvedDatabase → Tasks W
  unfolding reconcile_storage_secret reconcile_pvc reconcile_service reconcile_stateful_set
  storage_tasks state db =
      ("ReconcileFailed", reconcile_storage_secret state)
      ∷ ("ReconcileFailed", reconcile_pvc k "storage pvc" state (storage_pvc k.tools state))
      ∷ (
        "ReconcileFailed",
        reconcile_service k "storage service" state (storage_service k.tools state),
      )
      ∷ (
        "ReconcileFailed",
        reconcile_stateful_set k "storage statefulset" state
            (storage_stateful_set k.tools state db),
      )
      ∷ []

  unfoldable pub storage_resolved :
      Resource StorageSpec → Project → Resource RestSpec → ResolvedDatabase → Exec W ReconcileResult
  unfolding conclude storage_tasks storage_state
  storage_resolved obj project rest db =
      let state = storage_state project obj rest in
      conclude c obj (storage_tasks state db) (
        stateful_set_ready k.stateful_sets.client obj.meta.namespace
          (storage_stateful_set_name k.tools state))

  unfoldable pub storage_started : Resource StorageSpec × Project → Exec W ReconcileResult
  unfolding storage_resolved
  storage_started (obj, project) =
      go_on (require_dependency c rests (λ r. r.spec.project_ref) "Rest" obj)
        λ rest. go_on (resolve_database c obj project) (storage_resolved obj project rest)

  -- Reconcile
  unfoldable pub reconcile_storage : (namespace name : String) → Exec W ReconcileResult
  unfolding storage_started
  reconcile_storage namespace name = go_on (start c namespace name) storage_started
