-- ===== src/Controller/Component/Plain/Finished.antt =====
-- When a run for an Auth, Rest, Meta or Realtime ends with nothing more to ask.
use mathlib.Core.Path.{subst}
use supabase_kubernetes.Api.Common.{ResolvedDatabase}
use supabase_kubernetes.Api.Components.{ComponentSpec, Resource}
use supabase_kubernetes.Api.Projects.{Project, project_conditioned}
use supabase_kubernetes.Controller.Common.{finished}
use supabase_kubernetes.Controller.Component.{Component, ready, resolve_database}
use supabase_kubernetes.Controller.Component.Laws.{Starts}
use supabase_kubernetes.Controller.Component.Needs.{resolve_database_sound}
use supabase_kubernetes.Controller.Component.Plain.{
  Parts, plain_tasks, reconcile_plain, reconcile_resolved, reconcile_started, state_of,
}
use supabase_kubernetes.Controller.Component.Rollout.{deployment_ready}
use supabase_kubernetes.Controller.Component.Run.{Cluster, reconcile_deployment, reconcile_service}
use supabase_kubernetes.Controller.Component.Run.Ended.{IsConcluded, conclude-finished}
use supabase_kubernetes.Controller.Component.Run.Guards.{
  go_on-finished, resolve_database-stopped, started-finished,
}
use supabase_kubernetes.Database.{resolve_ref}
use supabase_kubernetes.Defaults.Context.{Context}
use supabase_kubernetes.Go.Outcome.{ok}
use supabase_kubernetes.Prelude.{String, [], concat, none, some, sym, true, ◌∷◌, ◌≡◌}
use supabase_kubernetes.Reconciler.Mutate.Workloads.{mutate_deployment}
use supabase_kubernetes.Reconciler.Status.Laws.{is_ready}

module _ {W : Type 0} (k : Cluster W) (c : Component W (Resource ComponentSpec))
    (parts : Parts) where
  -- the context of a run
  abbrev plain_state : Project → Resource ComponentSpec → Context
  plain_state project obj = state_of parts.kind parts.with_spec project obj

  -- What such a run has done: the component and its Project passed Start, the Project is ready and
  -- its database resolved, then the Service and the Deployment were ensured in this order, the
  -- Deployment was seen rolled out, and the cluster has the ready status.
  pub record IsDeployed (namespace name : String) (obj : Resource ComponentSpec) (w w' : W)
      : Type 0 where
    pub project : Project
    pub starts : Starts c namespace name w obj project
    pub project_ready : is_ready project_conditioned c.writer.conditions project ≡ true
    pub db : ResolvedDatabase
    pub resolved :
        resolve_ref c.writer.conditions c.databases project.spec.database_ref project.meta.namespace
          w
        ≡ ok (some db)
    pub concluded :
        IsConcluded c obj
          ((
            "ReconcileFailed",
            reconcile_service k
                (concat (parts.title ∷ " service" ∷ []))
                (plain_state project obj)
                (parts.service k.tools (plain_state project obj)),
          )
            ∷ (
              "ReconcileFailed",
              reconcile_deployment k mutate_deployment
                  (concat (parts.title ∷ " deployment" ∷ []))
                  (plain_state project obj)
                  (parts.deployment k.tools (plain_state project obj) db),
            )
            ∷ [])
          (deployment_ready k.deployments.client obj.meta.namespace
            (parts.deployment_name k.tools (plain_state project obj)))
          w
          w'

  plain-finished :
      (namespace name : String) (obj : Resource ComponentSpec) (project : Project) (w w' : W)
      → Starts c namespace name w obj project
      → reconcile_started k c parts (obj, project) w ≡ (ok finished, w')
      → IsDeployed namespace name obj w w'
  unfolding reconcile_started reconcile_resolved plain_tasks
  plain-finished namespace name obj project w w' starts run =
      let (db, w₁, resolving, rest) =
        go_on-finished (resolve_database c obj project) (reconcile_resolved k c parts obj project) w
          w' ((resolve_database-stopped c obj project).at w) run in
      let (ready, resolved, stays) = resolve_database_sound c obj project db w w₁ resolving in
      record {
        project = project;
        starts = starts;
        project_ready = ready;
        db = db;
        resolved = resolved;
        concluded = conclude-finished c obj _ _ w w' (
            subst (λ v. reconcile_resolved k c parts obj project db v ≡ (ok finished, w'))
              (sym stays) rest);
      }

  -- A run for an Auth, Rest, Meta or Realtime that is there and not being deleted, and that ends
  -- without error and asks for no further run, has found the component and its Project unambiguous
  -- and not being deleted, the Project ready and its database resolved; it has then ensured the
  -- Service and the Deployment in this order without error, has seen the Deployment rolled out, and
  -- leaves in the cluster the ready status.
  pub reconcile_plain-finished :
      (namespace name : String) (obj : Resource ComponentSpec) (w w' : W)
      → c.writer.client.get namespace name w ≡ ok obj
      → (c.writer.conditioned.meta obj).deletion_timestamp ≡ none
      → reconcile_plain k c parts namespace name w ≡ (ok finished, w')
      → IsDeployed namespace name obj w w'
  unfolding reconcile_plain
  reconcile_plain-finished namespace name obj w w' found stays run =
      let ((o, project), starts, same, rest) =
        started-finished c (reconcile_started k c parts) namespace name obj w w' found stays run in
      subst (λ x. IsDeployed namespace name x w w') same
        (plain-finished namespace name o project w w' starts rest)
