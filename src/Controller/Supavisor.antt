-- ===== src/Controller/Supavisor.antt =====
-- internal/controller/supavisor
use supabase_kubernetes.Go.Pure.{◌>>=◌}
use supabase_kubernetes.Api.Common.{ResolvedDatabase}
use supabase_kubernetes.Api.Components.{Resource, SupavisorSpec}
use supabase_kubernetes.Api.Projects.{Project}
use supabase_kubernetes.Controller.Common.{ReconcileResult}
use supabase_kubernetes.Controller.Component.{Component, resolve_database, start}
use supabase_kubernetes.Controller.Component.Plain.{state_of}
use supabase_kubernetes.Controller.Component.Rollout.{deployment_ready}
use supabase_kubernetes.Controller.Component.Run.{
  Cluster, Tasks, conclude, ensure, go_on, reconcile_deployment, reconcile_service,
}
use supabase_kubernetes.Defaults.Component.Supavisor.{
  supavisor_config_map, supavisor_deployment, supavisor_deployment_name, supavisor_secret,
  supavisor_service,
}
use supabase_kubernetes.Defaults.Context.{Context}
use supabase_kubernetes.Go.Exec.{Exec, attempt, lift, raise, reads}
use supabase_kubernetes.Go.GoMap.{index}
use supabase_kubernetes.Go.Outcome.{Outcome, err, errorf, ok}
use supabase_kubernetes.Kube.Core.{Secret}
use supabase_kubernetes.Kube.Workload.{Deployment}
use supabase_kubernetes.Prelude.{String, [], concat, if◌then◌else◌, none, some, ◌=s◌, ◌∷◌}
use supabase_kubernetes.Reconciler.Mutate.Simple.{mutate_config_map}
use supabase_kubernetes.Reconciler.Mutate.Workloads.{mutate_deployment}

-- how the Secret is mutated: derived data, which follows the password
unfoldable pub mutate_supavisor_secret : Secret → Secret → Outcome Secret
mutate_supavisor_secret existing desired = ok (record existing {
  data_map = desired.data_map;
  meta = record existing.meta { labels = desired.meta.labels };
  type = desired.type;
})

-- how the Deployment is mutated, its strategy too
unfoldable pub mutate_supavisor_deployment : Deployment → Deployment → Outcome Deployment
unfolding mutate_deployment
mutate_supavisor_deployment existing desired = do
  mutated ← mutate_deployment existing desired
  ok (record mutated { spec = record mutated.spec { strategy = desired.spec.strategy } })

-- the password under the key of the reference, which must not be empty
unfoldable pub password_of : ResolvedDatabase → Secret → Outcome String
password_of db secret =
    let refused = err (
      errorf (
        concat (
          "database password Secret " ∷ db.password_ref.name ∷ " must contain a nonempty "
          ∷ db.password_ref.key ∷ " key" ∷ []))) in
    elim (index secret.data_map db.password_ref.key) [
      | none ↦ refused
      | some password ↦ if password =s "" then refused else ok password
    ]

module _ {W : Type 0} (k : Cluster W) (c : Component W (Resource SupavisorSpec)) where
  -- reconcileSecret
  unfoldable pub reconcile_supavisor_secret : Context → ResolvedDatabase → Exec W (Unit {0})
  unfolding ensure password_of
  reconcile_supavisor_secret state db =
      attempt (reads (k.secrets.client.get state.project.meta.namespace db.password_ref.name)) raise
        λ secret. attempt (lift (password_of db secret)) raise λ password.
          ensure k k.secrets mutate_supavisor_secret
            (some (supavisor_secret k.urls k.tools state db password)) state.owner

  unfoldable pub supavisor_tasks : Context → ResolvedDatabase → Tasks W
  unfolding reconcile_supavisor_secret ensure reconcile_service reconcile_deployment
  supavisor_tasks state db =
      ("ReconcileFailed", reconcile_supavisor_secret state db)
      ∷ (
        "ReconcileFailed",
        ensure k k.config_maps mutate_config_map (some (supavisor_config_map k.tools state))
            state.owner,
      )
      ∷ (
        "ReconcileFailed",
        reconcile_service k "supavisor service" state (supavisor_service k.tools state),
      )
      ∷ (
        "ReconcileFailed",
        reconcile_deployment k mutate_supavisor_deployment "supavisor deployment" state
            (supavisor_deployment k.tools state db),
      )
      ∷ []

  unfoldable pub supavisor_resolved :
      Resource SupavisorSpec → Project → ResolvedDatabase → Exec W ReconcileResult
  unfolding conclude supavisor_tasks
  supavisor_resolved obj project db =
      let state =
        state_of "Supavisor" (λ spec conf. record conf { supavisor = some spec }) project obj in
      conclude c obj (supavisor_tasks state db) (
        deployment_ready k.deployments.client obj.meta.namespace
          (supavisor_deployment_name k.tools state))

  -- Reconcile
  unfoldable pub reconcile_supavisor : (namespace name : String) → Exec W ReconcileResult
  unfolding supavisor_resolved
  reconcile_supavisor namespace name =
      go_on (start c namespace name)
        λ q. go_on (resolve_database c q.0 q.1) (supavisor_resolved q.0 q.1)
