-- ===== src/Controller/Studio.antt =====
-- internal/controller/studio
use supabase_kubernetes.Api.Common.{ResolvedDatabase}
use supabase_kubernetes.Api.Components.{AnalyticsSpec, EnvoySpec, MetaSpec, Resource, StudioSpec}
use supabase_kubernetes.Api.Projects.{Project}
use supabase_kubernetes.Controller.Common.{ReconcileResult}
use supabase_kubernetes.Controller.Component.{
  Component, list_optional, require_dependency, resolve_database, start,
}
use supabase_kubernetes.Controller.Component.Rollout.{stateful_set_ready}
use supabase_kubernetes.Controller.Component.Run.{
  Cluster, Tasks, conclude, go_on, or_not_ready, reconcile_pvc, reconcile_service,
  reconcile_stateful_set,
}
use supabase_kubernetes.Defaults.Component.Studio.{
  studio_pvc, studio_service, studio_stateful_set, studio_stateful_set_name,
}
use supabase_kubernetes.Defaults.Context.{Context, new_context, with_name}
use supabase_kubernetes.Go.Exec.{Exec, reads}
use supabase_kubernetes.Kube.Client.{Client}
use supabase_kubernetes.Prelude.{Option, String, [], if◌then◌else◌, is_some, none, some, ◌∷◌}

-- an Analytics that is not being deleted becomes part of the context
unfoldable pub with_live_analytics : Option (Resource AnalyticsSpec) → Context → Context
with_live_analytics none state = state
with_live_analytics (some a) state =
    if is_some a.meta.deletion_timestamp
    then state
    else with_name "Analytics" a.meta.name
        (record state { spec = record state.spec { analytics = some a.spec } })

-- the context of a run
unfoldable pub studio_state :
    Project
    → Resource StudioSpec
    → Resource MetaSpec
    → Resource EnvoySpec
    → Option (Resource AnalyticsSpec)
    → Context
unfolding with_live_analytics
studio_state project obj meta envoy analytics =
    let state = with_live_analytics analytics (new_context project) in
    let conf = state.spec in
    with_name "Envoy" envoy.meta.name (
      with_name "Meta" meta.meta.name (
        with_name "Studio" obj.meta.name (record state {
          owner = some obj.meta;
          spec = record conf {
            studio = some obj.spec;
            meta = some meta.spec;
            envoy = some envoy.spec;
          };
        })))

module _ {W : Type 0} (k : Cluster W) (c : Component W (Resource StudioSpec))
    (metas : Client W (Resource MetaSpec)) (envoys : Client W (Resource EnvoySpec))
    (all_analytics : Client W (Resource AnalyticsSpec)) where
  unfoldable pub studio_tasks : Context → ResolvedDatabase → Tasks W
  unfolding reconcile_pvc reconcile_service reconcile_stateful_set
  studio_tasks state db =
      ("ReconcileFailed", reconcile_pvc k "studio pvc" state (studio_pvc k.tools state))
      ∷ (
        "ReconcileFailed",
        reconcile_service k "studio service" state (studio_service k.tools state),
      )
      ∷ (
        "ReconcileFailed",
        reconcile_stateful_set k "studio statefulset" state (studio_stateful_set k.tools state db),
      )
      ∷ []

  unfoldable pub studio_resolved :
      Resource StudioSpec → Context → ResolvedDatabase → Exec W ReconcileResult
  unfolding conclude studio_tasks
  studio_resolved obj state db = conclude c obj (studio_tasks state db) (
      stateful_set_ready k.stateful_sets.client obj.meta.namespace
        (studio_stateful_set_name k.tools state))

  unfoldable pub studio_with_database :
      Resource StudioSpec
      → Project
      → Resource MetaSpec
      → Resource EnvoySpec
      → ResolvedDatabase
      → Exec W ReconcileResult
  unfolding studio_resolved studio_state
  studio_with_database obj project meta envoy db =
      or_not_ready c obj "AmbiguousDependency"
        (reads (
          list_optional all_analytics (λ a. a.spec.project_ref) "Analytics" obj.meta.namespace
            project.meta.name))
        λ analytics. studio_resolved obj (studio_state project obj meta envoy analytics) db

  unfoldable pub studio_started : Resource StudioSpec × Project → Exec W ReconcileResult
  unfolding studio_with_database
  studio_started (obj, project) =
      go_on (require_dependency c metas (λ r. r.spec.project_ref) "Meta" obj) λ meta.
        go_on (require_dependency c envoys (λ r. r.spec.project_ref) "Envoy" obj) λ envoy.
          go_on (resolve_database c obj project) (studio_with_database obj project meta envoy)

  -- Reconcile
  unfoldable pub reconcile_studio : (namespace name : String) → Exec W ReconcileResult
  unfolding studio_started
  reconcile_studio namespace name = go_on (start c namespace name) studio_started
