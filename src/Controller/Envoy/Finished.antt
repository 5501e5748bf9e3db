-- ===== src/Controller/Envoy/Finished.antt =====
-- When a run for an Envoy ends with nothing more to ask.
use mathlib.Core.Path.{subst}
use supabase_kubernetes.Api.Common.{ResolvedDatabase}
use supabase_kubernetes.Api.Components.{EnvoySpec, Resource}
use supabase_kubernetes.Api.Projects.{Project}
use supabase_kubernetes.Controller.Common.{ReconcileResult, finished}
use supabase_kubernetes.Controller.Component.{Component, not_ready, resolve_database}
use supabase_kubernetes.Controller.Component.Laws.{Starts}
use supabase_kubernetes.Controller.Component.Needs.{resolve_database_sound}
use supabase_kubernetes.Controller.Component.Rollout.{deployment_ready}
use supabase_kubernetes.Controller.Component.Run.{
  Cluster, conclude, or_not_ready, reconcile_deployment, reconcile_service,
}
use supabase_kubernetes.Controller.Component.Run.Ended.{
  Avoids-not_ready, IsConcluded, conclude-finished,
}
use supabase_kubernetes.Controller.Component.Run.Guards.{
  go_on-finished, resolve_database-stopped, started-finished,
}
use supabase_kubernetes.Controller.Envoy.{
  Dependency, Routed, envoy_gathered, envoy_started, envoy_tasks, gather, reconcile_envoy,
  reconcile_envoy_config_map, reconcile_envoy_secret,
}
use supabase_kubernetes.Controller.Envoy.Gathered.{Routes, all_gathered-Routes}
use supabase_kubernetes.Controller.Envoy.Turns.{all_gathered}
use supabase_kubernetes.Database.{resolve_ref}
use supabase_kubernetes.Defaults.Component.Envoy.{
  envoy_deployment, envoy_deployment_name, envoy_service,
}
use supabase_kubernetes.Defaults.Context.{Context}
use supabase_kubernetes.Go.Exec.{Exec}
use supabase_kubernetes.Go.Exec.Inversion.{attempt-eq-ok, read-eq-ok}
use supabase_kubernetes.Go.Outcome.{ok}
use supabase_kubernetes.Go.Pure.{◌>>=◌}
use supabase_kubernetes.Prelude.{List, String, [], ap, none, refl, some, sym, ◌∙◌, ◌∷◌, ◌≡◌}
use supabase_kubernetes.Reconciler.Mutate.Workloads.{mutate_deployment}

module _ {W : Type 0} (k : Cluster W) (c : Component W (Resource EnvoySpec))
    (routed : Routed W) where
  gather-finished :
      (obj : Resource EnvoySpec) (ds : List (Dependency W)) (state : Context)
      (next : Context → Exec W ReconcileResult) (w w' : W)
      → gather k c routed obj ds state next w ≡ (ok finished, w')
      → (s : Context) × (all_gathered ds state w ≡ ok s) × (next s w ≡ (ok finished, w'))
  unfolding gather all_gathered
  gather-finished obj [] state next w w' run = (state, refl, run)
  gather-finished obj (d ∷ ds) state next w w' run =
      let (s, first, rest) =
        read-eq-ok (d state) (λ e. not_ready c obj "AmbiguousDependency" e.text)
          (λ s. gather k c routed obj ds s next) w (λ e. Avoids-not_ready c obj _ e.text) run in
      let (s', others, last) = gather-finished obj ds s next w w' rest in
      (s', ap (λ m. m >>= λ s. all_gathered ds s w) first ∙ others, last)

  -- What such a run has done: the component and its Project have passed Start, the context routes to
  -- the components that there are, the database is resolved, the Secret and the ConfigMap were
  -- ensured and read again, the Service and the Deployment with their hashes were ensured, the
  -- Deployment was seen rolled out, and the cluster has the ready status.
  pub record IsRouted (namespace name : String) (obj : Resource EnvoySpec) (w w' : W) : Type 0 where
    pub project : Project
    pub starts : Starts c namespace name w obj project
    pub state : Context
    pub routes : Routes k.tools routed obj project obj.meta.namespace project.meta.name w state
    pub db : ResolvedDatabase
    pub resolved :
        resolve_ref c.writer.conditions c.databases project.spec.database_ref project.meta.namespace
          w
        ≡ ok (some db)
    pub secret_text : String
    pub with_secret : W
    pub secret_ensured : reconcile_envoy_secret k state w ≡ (ok secret_text, with_secret)
    pub config_text : String
    pub with_config : W
    pub config_ensured :
        reconcile_envoy_config_map k state with_secret ≡ (ok config_text, with_config)
    pub concluded :
        IsConcluded c obj
          ((
            "ReconcileFailed",
            reconcile_service k "envoy service" state (envoy_service k.tools state),
          )
            ∷ (
              "ReconcileFailed",
              reconcile_deployment k mutate_deployment "envoy deployment" state
                  (envoy_deployment k.tools state config_text secret_text),
            )
            ∷ [])
          (deployment_ready k.deployments.client obj.meta.namespace
            (envoy_deployment_name k.tools state))
          with_config
          w'

  envoy_gathered-finished :
      (namespace name : String) (obj : Resource EnvoySpec) (project : Project) (state : Context)
      (w w' : W)
      → Starts c namespace name w obj project
      → Routes k.tools routed obj project obj.meta.namespace project.meta.name w state
      → envoy_gathered k c routed obj project state w ≡ (ok finished, w')
      → IsRouted namespace name obj w w'
  unfolding envoy_gathered envoy_tasks
  envoy_gathered-finished namespace name obj project state w w' starts routes run =
      let (db, w₁, resolving, rest) =
        go_on-finished (resolve_database c obj project) (λ _. after_database) w w'
          ((resolve_database-stopped c obj project).at w) run in
      let (_, resolved, stays) = resolve_database_sound c obj project db w w₁ resolving in
      let (secret_text, w₂, secret_ensured, rest₂) =
        attempt-eq-ok (reconcile_envoy_secret k state)
          (λ e. not_ready c obj "ReconcileFailed" e.text) after_secret w
          (λ e. Avoids-not_ready c obj _ e.text)
          (subst (λ v. after_database v ≡ (ok finished, w')) (sym stays) rest) in
      let (config_text, w₃, config_ensured, rest₃) =
        attempt-eq-ok (reconcile_envoy_config_map k state)
          (λ e. not_ready c obj "ReconcileFailed" e.text) (after_config secret_text) w₂
          (λ e. Avoids-not_ready c obj _ e.text) rest₂ in
      record {
        project = project;
        starts = starts;
        state = state;
        routes = routes;
        db = db;
        resolved = resolved;
        secret_text = secret_text;
        with_secret = w₂;
        secret_ensured = secret_ensured;
        config_text = config_text;
        with_config = w₃;
        config_ensured = config_ensured;
        concluded = conclude-finished c obj _ _ w₃ w' rest₃;
      }
    where
      after_config : String → String → Exec W ReconcileResult
      after_config secret_text config_text =
          conclude c obj (envoy_tasks k c routed state config_text secret_text) (
            deployment_ready k.deployments.client obj.meta.namespace
              (envoy_deployment_name k.tools state))

      after_secret : String → Exec W ReconcileResult
      after_secret secret_text =
          or_not_ready c obj "ReconcileFailed" (reconcile_envoy_config_map k state)
            (after_config secret_text)

      after_database : Exec W ReconcileResult
      after_database =
          or_not_ready c obj "ReconcileFailed" (reconcile_envoy_secret k state) after_secret

  -- A run for an Envoy that is there and not being deleted, and that ends without error and asks for
  -- no further run, has passed Start, has gathered a context whose rendered configuration enables
  -- each of the seven clusters exactly where the namespace lists one component of that kind for the
  -- Project, has resolved the database, has ensured in this order the Secret, the ConfigMap, the
  -- Service and the Deployment without error, has seen the Deployment rolled out, and leaves in the
  -- cluster the ready status.
  pub reconcile_envoy-finished :
      (namespace name : String) (obj : Resource EnvoySpec) (w w' : W)
      → c.writer.client.get namespace name w ≡ ok obj
      → (c.writer.conditioned.meta obj).deletion_timestamp ≡ none
      → reconcile_envoy k c routed namespace name w ≡ (ok finished, w')
      → IsRouted namespace name obj w w'
  unfolding reconcile_envoy envoy_started
  reconcile_envoy-finished namespace name obj w w' found stays run =
      let ((o, project), starts, same, rest) =
        started-finished c (envoy_started k c routed) namespace name obj w w' found stays run in
      let (state, gathered, last) =
        gather-finished o _ _ (envoy_gathered k c routed o project) w w' rest in
      subst (λ x. IsRouted namespace name x w w') same
        (envoy_gathered-finished namespace name o project state w w' starts
          (all_gathered-Routes k.tools routed o project o.meta.namespace project.meta.name w state
            gathered)
          last)
