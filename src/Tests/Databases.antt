-- ===== src/Tests/Databases.antt =====
-- The theorems on the SingleDatabase reconciler at concrete clusters.
use supabase_kubernetes.Api.Databases.{SingleDatabase, single_database_conditioned}
use supabase_kubernetes.Controller.Common.{ensure_built, ensure_wanted, finished, put_status}
use supabase_kubernetes.Controller.SingleDatabase.{
  Reconciler, ensure_database_secret, ensure_pvc, ensure_service, ensure_stateful_set,
  ensure_workload, follow_stateful_set, publish, published, reconcile, reconcile_found,
  wanted_replicas,
}
use supabase_kubernetes.Controller.SingleDatabase.Success.{
  IsPublished, database_of, reconcile-IsPublished, resolve_ref-published,
}
use supabase_kubernetes.Database.{resolve_ref}
use supabase_kubernetes.Defaults.Assets.{job_pod}
use supabase_kubernetes.Defaults.SingleDatabase.{
  postgres_labels, postgres_pvc_name, postgres_secret_name, postgres_service_host,
  postgres_service_name, postgres_stateful_set_name,
}
use supabase_kubernetes.Go.GoMap.{literal, nil, text_at}
use supabase_kubernetes.Go.Outcome.{ok}
use supabase_kubernetes.Kube.Meta.{object_meta}
use supabase_kubernetes.Kube.Workload.{StatefulSet}
use supabase_kubernetes.Prelude.{[], arith, is_some, none, refl, some, ℕ, ◌&&◌, ◌=s◌, ◌∷◌, ◌≡◌}
use supabase_kubernetes.Reconciler.Ensure.{
  check_existing, create_missing, ensure_resource, own, ownership_error, update_existing,
}
use supabase_kubernetes.Reconciler.Mutate.Pods.{
  blank_container, existing_by_name, merge_container, merge_containers, merge_named, merge_pod_spec,
  merge_pod_template_spec, merge_probe,
}
use supabase_kubernetes.Reconciler.Mutate.Pvc.{merge_pvc, mutate_pvc, validate_pvc_immutable_fields}
use supabase_kubernetes.Reconciler.Mutate.Service.{
  find_service_port, mutate_service, preserve_port_defaults, preserve_service_defaults,
}
use supabase_kubernetes.Reconciler.Mutate.Simple.{copy_missing, mutate_secret}
use supabase_kubernetes.Reconciler.Mutate.Workloads.{mutate_stateful_set}
use supabase_kubernetes.Reconciler.Status.{
  set_not_ready, set_ready, update_status, update_status_once,
}
use supabase_kubernetes.Reconciler.StringMap.{merge_string_maps}
use supabase_kubernetes.Tests.Ensure.{empty_world}
use supabase_kubernetes.Tests.Mutate.{claim_with}
use supabase_kubernetes.Tests.Objects.{main_ref, single_database}
use supabase_kubernetes.Tests.Services.{asked, service_of}
use supabase_kubernetes.Tests.World.{
  World, conditions, controller_reference, database_client, machinery, secret_client,
  service_client, slot_client,
}

-- the StatefulSet of a database, with so many ready pods
abbrev postgres_with : ℕ → StatefulSet
postgres_with ready_replicas = record {
  meta = record (object_meta "main-postgres" "ns" nil) {
    owner_references = controller_reference single_database.meta ∷ [];
  };
  spec = record {
    replicas = none;
    selector = none;
    template = job_pod nil (blank_container "postgres") [];
    volume_claim_templates = "";
    service_name = "main-postgres";
    pod_management_policy = "";
    rest = "";
  };
  status = record {
    observed_generation = 0;
    ready_replicas = ready_replicas;
    current_revision = "";
    update_revision = "";
  };
}

abbrev reconciler : Reconciler World
reconciler = record {
  machinery = machinery;
  conditions = conditions;
  databases = database_client;
  secrets = secret_client;
  claims = slot_client (λ t. t.meta) (λ w. w.claim) (λ t w. record w { claim = t });
  services = service_client;
  stateful_sets =
      slot_client (λ t. t.meta) (λ w. w.stateful_set) (λ t w. record w { stateful_set = t });
  same_status = λ a b. is_some a.status.resolved_database && is_some b.status.resolved_database;
  same_secret = λ a b. a.meta.name =s b.meta.name;
  same_claim = λ a b. a.meta.name =s b.meta.name;
  same_service = λ a b. a.meta.name =s b.meta.name;
  same_stateful_set = λ a b. a.meta.name =s b.meta.name;
  build_secret = λ db w. (
    ok (
        some (record {
          meta = object_meta (postgres_secret_name db) "ns" (postgres_labels db);
          type = "Opaque";
          data_map = literal (("password", "pw") ∷ []);
        })),
    w,
  );
  build_claim = λ db. ok (some (claim_with "1Gi" none));
  build_service = λ db. ok (some (service_of asked));
  build_stateful_set = λ db hash. ok (some (postgres_with 0));
  secret_hash = λ s. text_at s.data_map "password";
  cluster_domain = "cluster.local";
  requeue_interval = 10;
}

-- A SingleDatabase that is not yet published.
abbrev fresh : SingleDatabase
fresh = record single_database { status = record { conditions = []; resolved_database = none } }

abbrev started_world : World
started_world = record empty_world { database = some fresh; stateful_set = some (postgres_with 1) }

-- the cluster after a run
abbrev published_world : World
published_world = (reconcile reconciler "ns" "main" started_world).1

published_run : reconcile reconciler "ns" "main" started_world ≡ (ok finished, published_world)
unfolding reconcile reconcile_found ensure_database_secret ensure_wanted ensure_resource own
    check_existing ownership_error update_existing create_missing mutate_secret copy_missing
    postgres_secret_name ensure_workload ensure_pvc ensure_built mutate_pvc merge_pvc
    validate_pvc_immutable_fields ensure_service mutate_service preserve_service_defaults
    preserve_port_defaults find_service_port ensure_stateful_set mutate_stateful_set
    merge_pod_template_spec merge_pod_spec merge_containers merge_named existing_by_name
    merge_container merge_probe follow_stateful_set wanted_replicas publish published put_status
    update_status update_status_once set_ready merge_string_maps postgres_stateful_set_name
    postgres_pvc_name postgres_service_name postgres_service_host postgres_labels
published_run = refl

reconcile-IsPublished_example : IsPublished reconciler fresh published_world
reconcile-IsPublished_example =
    reconcile-IsPublished reconciler "ns" "main" started_world published_world fresh
      (λ e. omega arith) refl published_run

-- a cluster whose SingleDatabase has the published status
abbrev database_world : World
database_world = record empty_world {
  database = some (record fresh { status = (published reconciler fresh).status });
}

resolve_ref-published_example :
    ((published reconciler fresh).status ≡ (published reconciler fresh).status
      → resolve_ref conditions database_client main_ref "ns" database_world
        ≡ ok (some (database_of reconciler fresh)))
    × ((published reconciler fresh).status
          ≡ (set_not_ready single_database_conditioned conditions fresh "Down" "down").status
        → resolve_ref conditions database_client main_ref "ns" database_world ≡ ok none)
resolve_ref-published_example =
    resolve_ref-published reconciler fresh
      (record fresh { status = (published reconciler fresh).status }) main_ref "ns" "Down" "down"
      database_world refl refl
