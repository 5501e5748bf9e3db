-- ===== src/Controller/Component/Plain.antt =====
-- The four packages internal/controller/{auth,rest,meta,realtime}, which differ only in the parts
-- that they name.
pub mod Finished
pub mod Suspended
use supabase_kubernetes.Api.Common.{ResolvedDatabase}
use supabase_kubernetes.Api.Components.{ComponentSpec, Resource}
use supabase_kubernetes.Api.Projects.{Project}
use supabase_kubernetes.Controller.Common.{ReconcileResult}
use supabase_kubernetes.Controller.Component.{Component, resolve_database, start}
use supabase_kubernetes.Controller.Component.Rollout.{deployment_ready}
use supabase_kubernetes.Controller.Component.Run.{
  Cluster, Tasks, conclude, go_on, reconcile_deployment, reconcile_service,
}
use supabase_kubernetes.Defaults.Component.Auth.{
  auth_deployment, auth_deployment_name, auth_service,
}
use supabase_kubernetes.Defaults.Component.Meta.{
  meta_deployment, meta_deployment_name, meta_service,
}
use supabase_kubernetes.Defaults.Component.Realtime.{
  realtime_deployment, realtime_deployment_name, realtime_service,
}
use supabase_kubernetes.Defaults.Component.Rest.{
  rest_deployment, rest_deployment_name, rest_service,
}
use supabase_kubernetes.Defaults.Context.{Configuration, Context, Tools, new_context, with_name}
use supabase_kubernetes.Go.Exec.{Exec}
use supabase_kubernetes.Go.Outcome.{Outcome}
use supabase_kubernetes.Kube.Core.{Service}
use supabase_kubernetes.Kube.Workload.{Deployment}
use supabase_kubernetes.Prelude.{Option, String, [], concat, some, ◌∷◌}
use supabase_kubernetes.Reconciler.Mutate.Workloads.{mutate_deployment}

-- the parts of one of the packages: the kind, its text in errors, and the package of its defaults
pub record Parts : Type 0 where
  pub kind : String
  pub title : String
  pub with_spec : ComponentSpec → Configuration → Configuration
  pub service : Tools → Context → Outcome (Option Service)
  pub deployment : Tools → Context → ResolvedDatabase → Outcome (Option Deployment)
  pub deployment_name : Tools → Context → String

abbrev pub auth_parts : Parts
auth_parts = record {
  kind = "Auth";
  title = "auth";
  with_spec = λ spec conf. record conf { auth = some spec };
  service = auth_service;
  deployment = auth_deployment;
  deployment_name = auth_deployment_name;
}

abbrev pub rest_parts : Parts
rest_parts = record {
  kind = "Rest";
  title = "rest";
  with_spec = λ spec conf. record conf { rest = some spec };
  service = rest_service;
  deployment = rest_deployment;
  deployment_name = rest_deployment_name;
}

abbrev pub meta_parts : Parts
meta_parts = record {
  kind = "Meta";
  title = "meta";
  with_spec = λ spec conf. record conf { meta = some spec };
  service = meta_service;
  deployment = meta_deployment;
  deployment_name = meta_deployment_name;
}

abbrev pub realtime_parts : Parts
realtime_parts = record {
  kind = "Realtime";
  title = "realtime";
  with_spec = λ spec conf. record conf { realtime = some spec };
  service = realtime_service;
  deployment = realtime_deployment;
  deployment_name = realtime_deployment_name;
}

-- `state := defaults.NewContext(project); state.Owner = obj; state.Spec.<Kind> = &obj.Spec;
-- state.Names["<Kind>"] = obj.Name`
unfoldable pub state_of :
    {S : Type 0} → String → (S → Configuration → Configuration) → Project → Resource S → Context
state_of kind with_spec project obj =
    let state = new_context project in
    with_name kind obj.meta.name
      (record state { owner = some obj.meta; spec = with_spec obj.spec state.spec })

module _ {W : Type 0} (k : Cluster W) (c : Component W (Resource ComponentSpec))
    (parts : Parts) where
  -- the calls of reconcileService and reconcileDeployment
  unfoldable pub plain_tasks : Context → ResolvedDatabase → Tasks W
  unfolding reconcile_service reconcile_deployment
  plain_tasks state db =
      (
        "ReconcileFailed",
        reconcile_service k (concat (parts.title ∷ " service" ∷ [])) state
            (parts.service k.tools state),
      )
      ∷ (
        "ReconcileFailed",
        reconcile_deployment k mutate_deployment (concat (parts.title ∷ " deployment" ∷ [])) state
            (parts.deployment k.tools state db),
      )
      ∷ []

  -- Reconcile once the database is resolved
  unfoldable pub reconcile_resolved :
      Resource ComponentSpec → Project → ResolvedDatabase → Exec W ReconcileResult
  unfolding plain_tasks conclude
  reconcile_resolved obj project db =
      let state = state_of parts.kind parts.with_spec project obj in
      conclude c obj (plain_tasks state db) (
        deployment_ready k.deployments.client obj.meta.namespace
          (parts.deployment_name k.tools state))

  -- Reconcile once the component is started
  unfoldable pub reconcile_started : Resource ComponentSpec × Project → Exec W ReconcileResult
  unfolding reconcile_resolved
  reconcile_started (obj, project) =
      go_on (resolve_database c obj project) (reconcile_resolved obj project)

  -- Reconcile
  unfoldable pub reconcile_plain : (namespace name : String) → Exec W ReconcileResult
  unfolding reconcile_started
  reconcile_plain namespace name = go_on (start c namespace name) reconcile_started

module _ {W : Type 0} (k : Cluster W) (c : Component W (Resource ComponentSpec)) where
  unfoldable pub reconcile_auth : (namespace name : String) → Exec W ReconcileResult
  unfolding reconcile_plain
  reconcile_auth = reconcile_plain k c auth_parts

  unfoldable pub reconcile_rest : (namespace name : String) → Exec W ReconcileResult
  unfolding reconcile_plain
  reconcile_rest = reconcile_plain k c rest_parts

  unfoldable pub reconcile_meta : (namespace name : String) → Exec W ReconcileResult
  unfolding reconcile_plain
  reconcile_meta = reconcile_plain k c meta_parts

  unfoldable pub reconcile_realtime : (namespace name : String) → Exec W ReconcileResult
  unfolding reconcile_plain
  reconcile_realtime = reconcile_plain k c realtime_parts
