-- ===== src/Controller/Analytics/Alone.antt =====
-- When a run for an Analytics ends with nothing more to ask.
use mathlib.Core.Path.{subst}
use supabase_kubernetes.Api.Common.{ResolvedDatabase}
use supabase_kubernetes.Api.Components.{AnalyticsSpec, Resource}
use supabase_kubernetes.Api.Projects.{Project}
use supabase_kubernetes.Controller.Analytics.{
  Conflict, analytics_resolved, analytics_started, analytics_tasks, by_conflict,
  check_database_conflict, clear, conflict_among, conflicting, database_conflict,
  delete_analytics_deployment, reconcile_analytics, reconcile_analytics_secret,
}
use supabase_kubernetes.Controller.Analytics.Shared.{All, Apart, conflict_among-eq-clear}
use supabase_kubernetes.Controller.Common.{finished}
use supabase_kubernetes.Controller.Component.{Component, not_ready, resolve_database}
use supabase_kubernetes.Controller.Component.Laws.{Starts}
use supabase_kubernetes.Controller.Component.Needs.{resolve_database_sound}
use supabase_kubernetes.Controller.Component.Plain.{state_of}
use supabase_kubernetes.Controller.Component.Rollout.{deployment_ready}
use supabase_kubernetes.Controller.Component.Run.{Cluster, ensure, ensure_stamped, go_on}
use supabase_kubernetes.Controller.Component.Run.Ended.{
  Avoids-not_ready, IsConcluded, conclude-finished,
}
use supabase_kubernetes.Controller.Component.Run.Guards.{
  go_on-finished, resolve_database-stopped, started-finished,
}
use supabase_kubernetes.Database.{resolve_ref}
use supabase_kubernetes.Defaults.Component.Analytics.{
  analytics_deployment, analytics_deployment_name, analytics_service,
}
use supabase_kubernetes.Defaults.Context.{Context}
use supabase_kubernetes.Go.Exec.{attempt, lift, raise}
use supabase_kubernetes.Go.Exec.Inversion.{Avoids-attempt, Avoids-raise, read-eq-ok}
use supabase_kubernetes.Go.Outcome.{ok}
use supabase_kubernetes.Go.Pure.{bind-eq-ok}
use supabase_kubernetes.Prelude.{List, String, [], ap, concat, none, refl, some, sym, ◌∙◌, ◌∷◌, ◌≡◌}
use supabase_kubernetes.Reconciler.Mutate.Service.{mutate_service}
use supabase_kubernetes.Reconciler.Mutate.Workloads.{mutate_deployment}

module _ {W : Type 0} (k : Cluster W) (c : Component W (Resource AnalyticsSpec)) where
  -- the context of a run
  abbrev analytics_state : Project → Resource AnalyticsSpec → Context
  analytics_state project obj =
      state_of "Analytics" (λ spec conf. record conf { analytics = some spec }) project obj

  -- Besides what Start asks: all other Analytics of the namespace that are not being deleted have
  -- another database, the database is resolved, the objects are ensured and rolled out, and the
  -- cluster has the ready status.
  pub record IsAlone (namespace name : String) (obj : Resource AnalyticsSpec) (w w' : W)
      : Type 0 where
    pub project : Project
    pub starts : Starts c namespace name w obj project
    pub items : List (Resource AnalyticsSpec)
    pub listed : c.writer.client.list obj.meta.namespace w ≡ ok items
    pub apart : All (Apart c.projects obj project w) items
    pub db : ResolvedDatabase
    pub resolved :
        resolve_ref c.writer.conditions c.databases project.spec.database_ref project.meta.namespace
          w
        ≡ ok (some db)
    pub concluded :
        IsConcluded c obj
          (("SecretFailed", reconcile_analytics_secret k (analytics_state project obj) db)
            ∷ (
              "ReconcileFailed",
              attempt
                  (lift (analytics_service k.tools (analytics_state project obj)))
                  raise
                  (λ desired.
                    ensure k k.services mutate_service desired (analytics_state project obj).owner),
            )
            ∷ (
              "ReconcileFailed",
              attempt (lift (analytics_deployment k.tools (analytics_state project obj) db)) raise (
                  ensure_stamped k k.deployments mutate_deployment
                    (λ d. d.spec.template)
                    (λ pod d. record d { spec = record d.spec { template = pod } })
                    (analytics_state project obj)),
            )
            ∷ [])
          (deployment_ready k.deployments.client obj.meta.namespace
            (analytics_deployment_name k.tools (analytics_state project obj)))
          w
          w'

  by_conflict-finished :
      (obj : Resource AnalyticsSpec) (project : Project) (conflict : Conflict) (w w' : W)
      → by_conflict k c obj project conflict w ≡ (ok finished, w')
      → (conflict ≡ clear)
        × (go_on (resolve_database c obj project) (analytics_resolved k c obj project) w
            ≡ (ok finished, w'))
  unfolding by_conflict
  by_conflict-finished obj project clear w w' run = (refl, run)
  by_conflict-finished obj project (conflicting name) w w' run = absurd (
      (Avoids-attempt (delete_analytics_deployment k obj) raise
          (λ _.
            not_ready c obj "ConflictingDatabase" (concat (database_conflict ∷ ": " ∷ name ∷ [])))
          (λ e. Avoids-raise e finished) (λ _. Avoids-not_ready c obj _ _)).at
        w w' run)

  analytics_started-finished :
      (namespace name : String) (obj : Resource AnalyticsSpec) (project : Project) (w w' : W)
      → Starts c namespace name w obj project
      → analytics_started k c (obj, project) w ≡ (ok finished, w')
      → IsAlone namespace name obj w w'
  unfolding analytics_started check_database_conflict analytics_resolved analytics_tasks
  analytics_started-finished namespace name obj project w w' starts run =
      let (outcome, checked, rest) =
        read-eq-ok (check_database_conflict k c obj project) raise (by_conflict k c obj project) w
          (λ e. Avoids-raise e finished) run in
      let (none_found, going) = by_conflict-finished obj project outcome w w' rest in
      let (items, listed, among) =
        bind-eq-ok (c.writer.client.list obj.meta.namespace w)
          (λ items. conflict_among c.projects obj project items w) (checked ∙ ap ok none_found) in
      let (db, w₁, resolving, last) =
        go_on-finished (resolve_database c obj project) (analytics_resolved k c obj project) w w'
          ((resolve_database-stopped c obj project).at w) going in
      let (_, resolved, stays) = resolve_database_sound c obj project db w w₁ resolving in
      record {
        project = project;
        starts = starts;
        items = items;
        listed = listed;
        apart = conflict_among-eq-clear c.projects obj project w items among;
        db = db;
        resolved = resolved;
        concluded = conclude-finished c obj _ _ w w' (
            subst (λ v. analytics_resolved k c obj project db v ≡ (ok finished, w')) (sym stays)
              last);
      }

  -- A run for an Analytics that is there and not being deleted, and that ends without error and asks
  -- for no further run, has found that every other Analytics which the namespace lists, is not being
  -- deleted and has a Project, belongs to a Project with another database; the component and its
  -- Project have passed Start, the database is resolved, the Secret, the Service and the Deployment
  -- were ensured in this order without error, the Deployment was seen rolled out, and the cluster
  -- has the ready status.
  pub reconcile_analytics-finished :
      (namespace name : String) (obj : Resource AnalyticsSpec) (w w' : W)
      → c.writer.client.get namespace name w ≡ ok obj
      → (c.writer.conditioned.meta obj).deletion_timestamp ≡ none
      → reconcile_analytics k c namespace name w ≡ (ok finished, w')
      → IsAlone namespace name obj w w'
  unfolding reconcile_analytics
  reconcile_analytics-finished namespace name obj w w' found stays run =
      let ((o, project), starts, same, rest) =
        started-finished c (analytics_started k c) namespace name obj w w' found stays run in
      subst (λ x. IsAlone namespace name x w w') same
        (analytics_started-finished namespace name o project w w' starts rest)
