-- ===== src/Controller/Analytics.antt =====
-- internal/controller/analytics
pub mod Shared
pub mod Alone
use supabase_kubernetes.Api.Common.{ResolvedDatabase, database_ref_eq}
use supabase_kubernetes.Api.Components.{AnalyticsSpec, Resource}
use supabase_kubernetes.Api.Projects.{Project}
use supabase_kubernetes.Controller.Common.{ReconcileResult}
use supabase_kubernetes.Controller.Component.{Component, not_ready, resolve_database, start}
use supabase_kubernetes.Controller.Component.Plain.{state_of}
use supabase_kubernetes.Controller.Component.Rollout.{deployment_ready}
use supabase_kubernetes.Controller.Component.Run.{
  Cluster, Tasks, conclude, ensure, ensure_stamped, go_on,
}
use supabase_kubernetes.Defaults.Component.Analytics.{
  analytics_auth_secret, analytics_deployment, analytics_deployment_name, analytics_service,
}
use supabase_kubernetes.Defaults.Context.{Context}
use supabase_kubernetes.Go.Exec.{Exec, attempt, lift, pure, raise, reads, wrapping}
use supabase_kubernetes.Go.GoMap.{index, made, text_at, with_entry}
use supabase_kubernetes.Go.Outcome.{Outcome, err, errorf, ok, panic}
use supabase_kubernetes.Go.Pure.{◌>>=◌}
use supabase_kubernetes.Helper.Name.{resource_name}
use supabase_kubernetes.Kube.Client.{Client}
use supabase_kubernetes.Kube.Core.{Secret}
use supabase_kubernetes.Kube.Workload.{Deployment}
use supabase_kubernetes.Prelude.{
  List, String, [], concat, if◌then◌else◌, is_some, none, some, ◌=s◌, ◌||◌, ◌∷◌,
}
use supabase_kubernetes.Reconciler.Ensure.{is_not_found}
use supabase_kubernetes.Reconciler.Mutate.Service.{mutate_service}
use supabase_kubernetes.Reconciler.Mutate.Simple.{mutate_secret}
use supabase_kubernetes.Reconciler.Mutate.Workloads.{mutate_deployment}

-- errAnalyticsDatabaseConflict
abbrev pub database_conflict : String
database_conflict = "multiple Analytics resources reference the same database"

-- what checkDatabaseConflict finds, apart from other errors: nothing, or the name of an Analytics
-- that shares the database
pub data Conflict : Type 0 where
  clear : Conflict
  conflicting : String → Conflict

-- the loop of checkDatabaseConflict: an Analytics that is not being deleted and whose Project has
-- the same database
unfoldable pub conflict_among :
    {W : Type 0}
    → Client W Project
    → Resource AnalyticsSpec
    → Project
    → List (Resource AnalyticsSpec)
    → W
    → Outcome Conflict
conflict_among projects obj project [] w = ok clear
conflict_among projects obj project (item ∷ items) w =
    let rest = conflict_among projects obj project items w in
    if (item.meta.name =s obj.meta.name) || is_some item.meta.deletion_timestamp
    then rest
    else elim (projects.get obj.meta.namespace item.spec.project_ref w) [
      | ok p ↦
          if database_ref_eq p.spec.database_ref project.spec.database_ref
          then ok (conflicting item.meta.name)
          else rest
      | err e ↦ if is_not_found e then rest else err e
      | panic ↦ panic
    ]

-- how the Secret is mutated: the tokens are kept, the URL follows
unfoldable pub mutate_analytics_secret : Secret → Secret → Outcome Secret
unfolding mutate_secret
mutate_analytics_secret existing desired = do
  kept ←
      mutate_secret ("public-access-token" ∷ "private-access-token" ∷ [])
        (record existing { data_map = made (index existing.data_map) }) desired
  ok (record kept {
    data_map = made (with_entry (index kept.data_map) "url" (text_at desired.data_map "url"));
  })

-- the password under the key of the reference
unfoldable pub analytics_password : ResolvedDatabase → Secret → Outcome String
analytics_password db secret = elim (index secret.data_map db.password_ref.key) [
  | none ↦ err (
      errorf (
        concat (
          "database password secret " ∷ db.password_ref.name ∷ " is missing key "
          ∷ db.password_ref.key ∷ [])))
  | some password ↦ ok password
]

module _ {W : Type 0} (k : Cluster W) where
  -- deleteAnalyticsDeployment once the Deployment is read
  unfoldable pub delete_owned : Resource AnalyticsSpec → Deployment → Exec W (Unit {0})
  delete_owned obj d =
      if k.machinery.is_controlled_by d.meta.owner_references obj.meta
      then attempt (k.deployments.client.delete d.meta.namespace d.meta.name)
          (λ e. if is_not_found e then pure tt else raise e) pure
      else raise (errorf (concat ("deployment " ∷ d.meta.name ∷ " belongs to another owner" ∷ [])))

  -- deleteAnalyticsDeployment
  unfoldable pub delete_analytics_deployment : Resource AnalyticsSpec → Exec W (Unit {0})
  unfolding delete_owned
  delete_analytics_deployment obj =
      attempt
        (reads (
          k.deployments.client.get obj.meta.namespace
            (resource_name k.tools.digest obj.meta.name "analytics")))
        (λ e. if is_not_found e then pure tt else raise e) (delete_owned obj)

  -- reconcileSecret
  unfoldable pub reconcile_analytics_secret : Context → ResolvedDatabase → Exec W (Unit {0})
  unfolding ensure analytics_password
  reconcile_analytics_secret state db =
      attempt
        (wrapping "reading database password secret"
          (reads (k.secrets.client.get state.project.meta.namespace db.password_ref.name)))
        raise
        λ secret. attempt (lift (analytics_password db secret)) raise λ password.
          attempt
            (wrapping "building analytics auth secret"
              (analytics_auth_secret k.random k.urls k.tools state db password))
            raise λ desired. ensure k k.secrets mutate_analytics_secret (some desired) state.owner

  -- reconcileService and reconcileDeployment, which pass the errors of the builders on
  unfoldable pub analytics_tasks : Context → ResolvedDatabase → Tasks W
  unfolding reconcile_analytics_secret ensure ensure_stamped
  analytics_tasks state db =
      ("SecretFailed", reconcile_analytics_secret state db)
      ∷ (
        "ReconcileFailed",
        attempt (lift (analytics_service k.tools state)) raise
            (λ desired. ensure k k.services mutate_service desired state.owner),
      )
      ∷ (
        "ReconcileFailed",
        attempt (lift (analytics_deployment k.tools state db)) raise (
            ensure_stamped k k.deployments mutate_deployment (λ d. d.spec.template)
              (λ pod d. record d { spec = record d.spec { template = pod } }) state),
      )
      ∷ []

  module _ (c : Component W (Resource AnalyticsSpec)) where
    -- checkDatabaseConflict
    unfoldable pub check_database_conflict : Resource AnalyticsSpec → Project → W → Outcome Conflict
    unfolding conflict_among
    check_database_conflict obj project w = do
      items ← c.writer.client.list obj.meta.namespace w
      conflict_among c.projects obj project items w

    unfoldable pub analytics_resolved :
        Resource AnalyticsSpec → Project → ResolvedDatabase → Exec W ReconcileResult
    unfolding conclude analytics_tasks
    analytics_resolved obj project db =
        let state =
          state_of "Analytics" (λ spec conf. record conf { analytics = some spec }) project obj in
        conclude c obj (analytics_tasks state db) (
          deployment_ready k.deployments.client obj.meta.namespace
            (analytics_deployment_name k.tools state))

    -- Reconcile once the conflict is checked
    unfoldable pub by_conflict :
        Resource AnalyticsSpec → Project → Conflict → Exec W ReconcileResult
    unfolding delete_analytics_deployment analytics_resolved
    by_conflict obj project clear =
        go_on (resolve_database c obj project) (analytics_resolved obj project)
    by_conflict obj project (conflicting name) =
        attempt (delete_analytics_deployment obj) raise
          λ _. not_ready c obj "ConflictingDatabase" (concat (database_conflict ∷ ": " ∷ name ∷ []))

    unfoldable pub analytics_started : Resource AnalyticsSpec × Project → Exec W ReconcileResult
    unfolding check_database_conflict by_conflict
    analytics_started (obj, project) =
        attempt (reads (check_database_conflict obj project)) raise (by_conflict obj project)

    -- Reconcile
    unfoldable pub reconcile_analytics : (namespace name : String) → Exec W ReconcileResult
    unfolding analytics_started
    reconcile_analytics namespace name = go_on (start c namespace name) analytics_started
