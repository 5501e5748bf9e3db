-- ===== src/Tests/Objects.antt =====
-- Objects of the small cluster.
use supabase_kubernetes.Api.Common.{DatabaseRef, ResolvedDatabase}
use supabase_kubernetes.Api.Databases.{SingleDatabase}
use supabase_kubernetes.Api.Migrations.{Migration, MigrationEntry}
use supabase_kubernetes.Defaults.Assets.{Assets, Digest, job_pod, operator_job}
use supabase_kubernetes.Go.GoMap.{literal, nil}
use supabase_kubernetes.Go.Outcome.{err, errorf, ok}
use supabase_kubernetes.Helper.Overlay.{JsonText, Patching, null}
use supabase_kubernetes.Kube.Condition.{Condition, condition_true}
use supabase_kubernetes.Kube.Core.{ConfigMap}
use supabase_kubernetes.Kube.Meta.{object_meta}
use supabase_kubernetes.Kube.Pod.{PodTemplateSpec}
use supabase_kubernetes.Kube.Workload.{Job}
use supabase_kubernetes.Prelude.{Option, String, [], none, some, ℕ, ◌∷◌}
use supabase_kubernetes.Reconciler.Mutate.Pods.{blank_container}
use supabase_kubernetes.Tests.World.{World, controller_reference}

abbrev pub sql_entry : MigrationEntry
sql_entry = record { name = "init.sql"; sql = "select 1" }

abbrev pub main_ref : DatabaseRef
main_ref = record { kind = "SingleDatabase"; name = "main" }

-- A Migration with the given applied hash.
abbrev pub migration_with : String → Migration
migration_with hash = record {
  meta = object_meta "m" "ns" nil;
  spec = record { pod = none; database_ref = main_ref; migrations = sql_entry ∷ [] };
  status = record { conditions = []; applied_hash = hash; applied_at = none };
}

abbrev pub main_database : ResolvedDatabase
main_database = record {
  host = "main";
  port = 5432;
  db_name = "postgres";
  user = "supabase_admin";
  password_ref = record { name = "main-password"; key = "password" };
}

abbrev pub ready : Condition
ready = record {
  type = "Ready";
  status = condition_true;
  observed_generation = 1;
  reason = "ReconcileSucceeded";
  message = "";
}

abbrev pub single_database : SingleDatabase
single_database = record {
  meta = object_meta "main" "ns" nil;
  spec = record { pod = none; service = none; storage = none };
  status = record { conditions = ready ∷ []; resolved_database = some main_database };
}

abbrev pub text_digest : Digest
text_digest s = s

abbrev pub no_patches : Patching PodTemplateSpec
no_patches = record {
  marshal = λ t. ok "{}";
  unmarshal = λ s. err (errorf "no template");
  strategic_merge_patch = λ base user. ok base;
}

abbrev pub json_text : JsonText
json_text = record { unmarshal_any = λ s. ok null; marshal_any = λ v. ok "null" }

abbrev pub assets : Assets
assets = record {
  migration_apply_script = "apply";
  project_sync_jwt_script = "jwt";
  project_sync_password_script = "password";
  supabase_migration = "supabase";
  realtime_migration = "realtime";
  logs_migration = "logs";
  pooler_migration = "pooler";
  webhooks_migration = "webhooks";
  single_database_password_sync_script = "";
  single_database_pgsodium_init_script = "";
  project_envoy_init_container = "";
  envoy_entrypoint = "";
  main_function = "";
  functions_deno_config = "";
  envoy_base_template = "";
  envoy_cds_template = "";
  envoy_lds_template = "";
  supavisor_pooler_script = "";
  vector_template = "";
}

-- The Job of the Migration with its pods' counts, as the reconciler makes it.
abbrev pub migration_job_with : ℕ → ℕ → Job
migration_job_with succeeded failed =
    record (operator_job
      (record (object_meta "m-job" "ns" nil) {
        owner_references = controller_reference (migration_with "").meta ∷ [];
      })
      (job_pod nil (blank_container "migration") [])) {
        status = record { succeeded = succeeded; failed = failed };
      }

abbrev pub batch_config_map : ConfigMap
batch_config_map = record {
  meta = record (object_meta "m-sql" "ns" nil) {
    owner_references = controller_reference (migration_with "").meta ∷ [];
  };
  data_map = literal (("batch.sql", "select 1") ∷ []);
  binary_data = "";
  rest = "";
}

-- A cluster with a Migration, its database and a Job.
abbrev pub world_with : Migration → Option Job → World
world_with migration job = record {
  migration = some migration;
  database = some single_database;
  config_map = some batch_config_map;
  service = none;
  secrets = [];
  job = job;
  project = none;
  claim = none;
  stateful_set = none;
}
