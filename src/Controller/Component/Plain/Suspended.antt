-- ===== src/Controller/Component/Plain/Suspended.antt =====
-- What an Auth, Rest, Meta or Realtime leaves alone while the shared Project is not ready.
use supabase_kubernetes.Api.Components.{ComponentSpec, Resource}
use supabase_kubernetes.Api.Projects.{Project, project_conditioned}
use supabase_kubernetes.Controller.Component.{Component}
use supabase_kubernetes.Controller.Component.Plain.{Parts, reconcile_plain, reconcile_resolved}
use supabase_kubernetes.Controller.Component.Run.{Cluster}
use supabase_kubernetes.Controller.Component.Run.Suspended.{suspended}
use supabase_kubernetes.Go.Exec.Keeps.{Keeps}
use supabase_kubernetes.Go.Outcome.{ok}
use supabase_kubernetes.Prelude.{String, false, ◌≡◌}
use supabase_kubernetes.Reconciler.Status.{set_not_ready}
use supabase_kubernetes.Reconciler.Status.Laws.{is_ready}

-- A run for an Auth, Rest, Meta or Realtime that is found, and whose Project the cluster holds as not
-- ready, keeps whatever the writes of a not-ready status to a component of its kind keep, for
-- instance what the cluster holds of Services and Deployments.
pub reconcile_plain-suspended :
    {W : Type 0} (k : Cluster W) (c : Component W (Resource ComponentSpec)) (parts : Parts)
    {P : W → Type 0} (namespace name : String) (obj : Resource ComponentSpec) (w : W)
    → ((obj latest : Resource ComponentSpec) (reason message : String)
        → Keeps P (
            c.writer.client.update_status (
              c.writer.conditioned.copy_status
                (set_not_ready c.writer.conditioned c.writer.conditions obj reason message)
                latest)))
    → c.writer.client.get namespace name w ≡ ok obj
    → ((project : Project)
        → c.projects.get (c.writer.conditioned.meta obj).namespace (c.project_ref obj) w
          ≡ ok project
        → is_ready project_conditioned c.writer.conditions project ≡ false)
    → P w
    → P (reconcile_plain k c parts namespace name w).1
unfolding reconcile_plain
reconcile_plain-suspended k c parts {P} namespace name obj w write found unready p =
    suspended c {P = P} write namespace name obj (reconcile_resolved k c parts) w found unready p
