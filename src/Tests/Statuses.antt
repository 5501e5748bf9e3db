-- ===== src/Tests/Statuses.antt =====
-- The theorems on statuses and references at concrete clusters.
use supabase_kubernetes.Api.Common.{database_ref_eq, database_ref_eq_iff}
use supabase_kubernetes.Api.Migrations.{Migration, migration_conditioned}
use supabase_kubernetes.Database.{resolve_ref}
use supabase_kubernetes.Database.Laws.{Resolves, resolve_ref_iff}
use supabase_kubernetes.Go.Outcome.{ok}
use supabase_kubernetes.Prelude.{Bool, none, refl, some, true, ◌=s◌, ◌↔◌, ◌≡◌}
use supabase_kubernetes.Reconciler.Status.{update_status, update_status_once}
use supabase_kubernetes.Reconciler.Status.Laws.{StatusKept, update_status_sound}
use supabase_kubernetes.Tests.Objects.{main_database, main_ref, migration_with, world_with}
use supabase_kubernetes.Tests.World.{
  World, conditions, database_client, machinery, migration_client,
}

abbrev same_conditions : Migration → Migration → Bool
same_conditions a b = a.status.applied_hash =s b.status.applied_hash

abbrev world : World
world = world_with (migration_with "old") none

update_status_run :
    update_status migration_conditioned machinery migration_client same_conditions
      (migration_with "new")
      world
    ≡ (ok tt, world_with (migration_with "new") none)
unfolding update_status update_status_once
update_status_run = refl

update_status_sound_example :
    StatusKept migration_conditioned machinery migration_client same_conditions
      (migration_with "new")
      (world_with (migration_with "new") none)
update_status_sound_example =
    update_status_sound migration_conditioned machinery migration_client same_conditions
      (migration_with "new") world (world_with (migration_with "new") none) update_status_run

resolve_ref_iff_example :
    (resolve_ref conditions database_client main_ref "ns" world ≡ ok (some main_database)) ↔ (
      (main_ref.kind ≡ "SingleDatabase")
      × Resolves conditions database_client main_ref "ns" world main_database)
resolve_ref_iff_example =
    resolve_ref_iff conditions database_client main_ref "ns" world main_database

database_ref_eq_iff_example : (database_ref_eq main_ref main_ref ≡ true) ↔ (main_ref ≡ main_ref)
database_ref_eq_iff_example = database_ref_eq_iff main_ref main_ref
