-- ===== src/Tests/Reconcilers.antt =====
-- The theorems on the reconcilers at concrete clusters.
use supabase_kubernetes.Api.Migrations.{Migration, migration_conditioned}
use supabase_kubernetes.Controller.Common.Effects.{WritesKeep}
use supabase_kubernetes.Controller.Migration.{Reconciler, applied, reconcile}
use supabase_kubernetes.Controller.Migration.Applied.{reconcile-applied}
use supabase_kubernetes.Controller.Migration.Success.{IsUnsuccessful, reconcile-unsuccessful}
use supabase_kubernetes.Defaults.Migration.{migration_config_map, migration_job, migration_job_name}
use supabase_kubernetes.Go.Outcome.{ok}
use supabase_kubernetes.Kube.Core.{ConfigMap}
use supabase_kubernetes.Kube.Workload.{Job}
use supabase_kubernetes.Prelude.{Option, String, arith, inr, none, refl, some, ◌=s◌, ◌∙◌, ◌≡◌}
use supabase_kubernetes.Reconciler.Status.{set_not_ready}
use supabase_kubernetes.Tests.Objects.{
  assets, json_text, migration_job_with, migration_with, no_patches, text_digest, world_with,
}
use supabase_kubernetes.Tests.World.{
  World, conditions, config_map_client, create_job, database_client, job_client, machinery,
  migration_client, update_job,
}

-- DeepEqual of objects that differ in their names only
abbrev reconciler : Reconciler World
reconciler = record {
  machinery = machinery;
  conditions = conditions;
  migrations = migration_client;
  databases = database_client;
  config_maps = config_map_client;
  jobs = job_client;
  same_status = λ a b. a.status.applied_hash =s b.status.applied_hash;
  same_config_map = λ a b. a.meta.name =s b.meta.name;
  same_job = λ a b. a.meta.name =s b.meta.name;
  build_config_map = migration_config_map;
  build_job = migration_job json_text no_patches text_digest assets;
  digest = text_digest;
  now = λ w. "now";
  requeue_interval = 10;
}

abbrev HasNoJob : World → Type 0
HasNoJob w = w.job ≡ none

config_maps-keep-HasNoJob : WritesKeep config_map_client HasNoJob
config_maps-keep-HasNoJob = record {
  create = λ t. record { at = λ w h. by_slot t w w.config_map refl h };
  update = λ t. record { at = λ w h. h };
  delete = λ namespace name. record { at = λ w h. h };
}
  where
    by_slot :
        (t : ConfigMap) (w : World) (slot : Option ConfigMap)
        → w.config_map ≡ slot
        → HasNoJob w
        → HasNoJob (config_map_client.create t w).1
    by_slot t w none e h = rw e h
    by_slot t w (some c) e h = rw e h

reconcile-applied_example :
    (reconcile reconciler "ns" "m" (world_with (migration_with "select 1") none)).1.job ≡ none
reconcile-applied_example =
    reconcile-applied reconciler {P = HasNoJob} "ns" "m"
      (world_with (migration_with "select 1") none) (migration_with "select 1") refl (λ e. cc)
      config_maps-keep-HasNoJob (λ reason message latest. record { at = λ w h. h }) refl

-- The Migration is not applied, and no Job of the cluster has succeeded.
abbrev IsPending : World → Type 0
IsPending w =
    ((m : Migration) → w.migration ≡ some m → m.status.applied_hash ≡ "")
    × ((j : Job) → w.job ≡ some j → IsUnsuccessful j)

create_job-IsPending : (t : Job) (w : World) → IsPending w → IsPending (create_job t w).1
create_job-IsPending t w p = by_slot w.job refl
  where
    by_slot : (slot : Option Job) → w.job ≡ slot → IsPending (create_job t w).1
    by_slot none e = rw e (p.0, λ j h. inr (ground arith))
    by_slot (some j) e = rw e (p.0, λ k h. p.1 k (e ∙ h))

update_job-IsPending : (t : Job) (w : World) → IsPending w → IsPending (update_job t w).1
update_job-IsPending t w p = by_slot w.job refl
  where
    by_slot : (slot : Option Job) → w.job ≡ slot → IsPending (update_job t w).1
    by_slot none e = rw e (p.0, λ j h. p.1 j (e ∙ h))
    by_slot (some k) e = rw e (p.0, λ j h. let u = p.1 k e in ground arith)

jobs-keep-IsPending : WritesKeep job_client IsPending
jobs-keep-IsPending = record {
  create = λ t. record { at = create_job-IsPending t };
  update = λ t. record { at = update_job-IsPending t };
  delete = λ namespace name. record { at = λ w p. (p.0, λ j h. cc) };
}

config_maps-keep-IsPending : WritesKeep config_map_client IsPending
config_maps-keep-IsPending = record {
  create = λ t. record { at = λ w p. by_slot t w w.config_map refl p };
  update = λ t. record { at = λ w p. p };
  delete = λ namespace name. record { at = λ w p. p };
}
  where
    by_slot :
        (t : ConfigMap) (w : World) (slot : Option ConfigMap)
        → w.config_map ≡ slot
        → IsPending w
        → IsPending (config_map_client.create t w).1
    by_slot t w none e p = rw e p
    by_slot t w (some c) e p = rw e p

job_found :
    (w : World) (j : Job) (namespace name : String)
    → job_client.get namespace name w ≡ ok j
    → w.job ≡ some j
job_found w j namespace name h = by_slot w.job refl h
  where
    by_slot :
        (slot : Option Job) → w.job ≡ slot → job_client.get namespace name w ≡ ok j → w.job ≡ some j
    by_slot none e h = cc (rw e at h)
    by_slot (some k) e h = ground (arith, rw e at h)

not_ready_hash :
    (reason message : String)
    → (set_not_ready migration_conditioned conditions
        (migration_with "")
        reason
        message).status.applied_hash
      ≡ ""
unfolding set_not_ready
not_ready_hash reason message = refl

-- a Job with one pod that has succeeded and one that has failed
abbrev retried_world : World
retried_world = world_with (migration_with "") (some (migration_job_with 1 1))

reconcile-unsuccessful_example : IsPending (reconcile reconciler "ns" "m" retried_world).1
unfolding migration_job_name
reconcile-unsuccessful_example =
    reconcile-unsuccessful reconciler {P = IsPending} "ns" "m" retried_world (migration_with "")
      refl config_maps-keep-IsPending jobs-keep-IsPending
      (λ reason message latest. record {
        at = λ w p. (λ m h. ground (arith, not_ready_hash reason message), p.1);
      })
      (λ v job p found. p.1 job (job_found v job "ns" "m-job" found))
      ((λ m h. ground arith), (λ j h. ground arith))

abbrev finished_world : World
finished_world = world_with (migration_with "") (some (migration_job_with 1 0))

-- the Migration as it is written, and the cluster after the write
abbrev marked : Migration
marked = record (migration_with "") {
  status = (applied reconciler (migration_with "") "now").status;
}

abbrev applied_world : World
applied_world = record finished_world { migration = some marked }
