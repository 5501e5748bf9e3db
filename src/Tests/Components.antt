-- ===== src/Tests/Components.antt =====
-- The theorems on components at a concrete namespace.
use supabase_kubernetes.Api.Projects.{project_conditioned}
use supabase_kubernetes.Controller.Component.{
  check_unique, list_referring, proceed, referring, require_dependency, resolve_database, start,
  start_found, with_project, with_resolved,
}
use supabase_kubernetes.Controller.Component.Laws.{Starts, start_sound}
use supabase_kubernetes.Controller.Component.Needs.{require_dependency_iff, resolve_database_sound}
use supabase_kubernetes.Controller.Component.Rollout.{
  IsRolledOut, deployment_ready, deployment_ready_iff,
}
use supabase_kubernetes.Database.{resolve_ref}
use supabase_kubernetes.Go.Outcome.{ok}
use supabase_kubernetes.Kube.Client.{Client}
use supabase_kubernetes.Kube.Workload.{DaemonSet, Deployment, StatefulSet}
use supabase_kubernetes.Prelude.{[], refl, some, true, ◌↔◌, ◌∷◌, ◌≡◌}
use supabase_kubernetes.Reconciler.Status.Laws.{is_ready}
use supabase_kubernetes.Tests.Namespace.{
  Namespace, alone, component, part_client, part_of, ready_project_of,
}
use supabase_kubernetes.Tests.Objects.{main_database, main_ref}
use supabase_kubernetes.Tests.World.{conditions, slot_client}

start_run :
    start component "ns" "a" alone ≡ (ok (proceed (part_of "a" "p", ready_project_of)), alone)
unfolding start start_found with_project list_referring referring check_unique
start_run = refl

start_sound_example :
    Starts component "ns" "a" alone (part_of "a" "p") ready_project_of × (alone ≡ alone)
start_sound_example =
    start_sound component "ns" "a" alone alone (part_of "a" "p") ready_project_of start_run

require_dependency_iff_example :
    (require_dependency component part_client (λ p. p.project_name) "Rest" (part_of "a" "p") alone
      ≡ (ok (proceed (part_of "a" "p")), alone))
    ↔ ((list_referring part_client (λ p. p.project_name) "ns" "p" alone ≡ ok (part_of "a" "p" ∷ []))
        × (alone ≡ alone))
require_dependency_iff_example =
    require_dependency_iff component part_client (λ p. p.project_name) "Rest" (part_of "a" "p")
      (part_of "a" "p") alone alone

resolve_database_run :
    resolve_database component (part_of "a" "p") ready_project_of alone
    ≡ (ok (proceed main_database), alone)
unfolding resolve_database resolve_ref with_resolved
resolve_database_run = refl

resolve_database_sound_example :
    (is_ready project_conditioned conditions ready_project_of ≡ true)
    × (resolve_ref conditions component.databases main_ref "ns" alone ≡ ok (some main_database))
    × (alone ≡ alone)
resolve_database_sound_example =
    resolve_database_sound component (part_of "a" "p") ready_project_of main_database alone alone
      resolve_database_run

abbrev deployments : Client Namespace Deployment
deployments = slot_client (λ t. t.meta) (λ w. w.deployment) (λ t w. record w { deployment = t })

abbrev stateful_sets : Client Namespace StatefulSet
stateful_sets =
    slot_client (λ t. t.meta) (λ w. w.stateful_set) (λ t w. record w { stateful_set = t })

abbrev daemon_sets : Client Namespace DaemonSet
daemon_sets = slot_client (λ t. t.meta) (λ w. w.daemon_set) (λ t w. record w { daemon_set = t })

deployment_ready_iff_example :
    (deployment_ready deployments "ns" "d" alone ≡ ok tt)
    ↔ ((d : Deployment) × (deployments.get "ns" "d" alone ≡ ok d) × IsRolledOut d)
deployment_ready_iff_example = deployment_ready_iff deployments "ns" "d" alone
