-- ===== src/Defaults/Migration.antt =====
-- internal/defaults/migration: the ConfigMap and the Job that apply a Migration.
use supabase_kubernetes.Api.Common.{ResolvedDatabase}
use supabase_kubernetes.Api.Migrations.{Migration, MigrationEntry}
use supabase_kubernetes.Defaults.Assets.{Assets, Digest, job_pod, operator_job, simple_container}
use supabase_kubernetes.Defaults.Images.{default_postgres_image}
use supabase_kubernetes.Defaults.Shapes.{config_map_volume}
use supabase_kubernetes.Go.GoMap.{GoMap, literal}
use supabase_kubernetes.Go.Outcome.{Outcome, ok}
use supabase_kubernetes.Go.Pure.{◌>>=◌}
use supabase_kubernetes.Go.Strconv.{itoa}
use supabase_kubernetes.Helper.Env.{env_var, env_var_from_secret}
use supabase_kubernetes.Helper.Overlay.{JsonText, Patching, overlay}
use supabase_kubernetes.Kube.Core.{ConfigMap}
use supabase_kubernetes.Kube.Meta.{object_meta}
use supabase_kubernetes.Kube.Pod.{Container, EnvVar, PodTemplateSpec, Volume}
use supabase_kubernetes.Kube.Workload.{Job}
use supabase_kubernetes.Prelude.{List, Option, String, [], concat, false, some, ℕ, ◌+◌, ◌∷◌}

-- MigrationLabels
unfoldable pub migration_labels : Migration → GoMap String
migration_labels migration = literal (
    ("app.kubernetes.io/name", "migration")
    ∷ ("app.kubernetes.io/component", "migration")
    ∷ ("app.kubernetes.io/instance", migration.meta.name)
    ∷ ("app.kubernetes.io/managed-by", "supabase-operator")
    ∷ [])

unfoldable pub migration_config_map_name : Migration → String
migration_config_map_name migration = concat (migration.meta.name ∷ "-sql" ∷ [])

unfoldable pub migration_job_name : Migration → String
migration_job_name migration = concat (migration.meta.name ∷ "-job" ∷ [])

-- the loop of BatchSQL, from the entry of index `i`
batch_from : ℕ → List MigrationEntry → String
batch_from i [] = ""
batch_from i (entry ∷ entries) = concat (
    "-- migration "
    ∷ itoa i
    ∷ ": "
    ∷ entry.name
    ∷ "\n"
    ∷ entry.sql
    ∷ "\n\n"
    ∷ batch_from (i + 1) entries
    ∷ [])

unfoldable pub batch_sql : Migration → String
unfolding batch_from
batch_sql migration = batch_from 0 migration.spec.migrations

-- what MigrationHash writes to the hash
hashed_text : List MigrationEntry → String
hashed_text [] = ""
hashed_text (entry ∷ entries) = concat (entry.sql ∷ "\0MIGRATION\0" ∷ hashed_text entries ∷ [])

unfoldable pub migration_hash : Digest → Migration → String
unfolding hashed_text
migration_hash digest migration = digest (hashed_text migration.spec.migrations)

unfoldable pub migration_config_map : Migration → Outcome (Option ConfigMap)
unfolding migration_labels migration_config_map_name
migration_config_map migration = ok (
    some (record {
      meta =
          object_meta (migration_config_map_name migration) migration.meta.namespace
            (migration_labels migration);
      data_map = literal (("batch.sql", batch_sql migration) ∷ []);
      binary_data = "";
      rest = "";
    }))

unfoldable pub build_migration_env_vars : Digest → Migration → ResolvedDatabase → List EnvVar
build_migration_env_vars digest migration db =
    env_var "PGHOST" db.host
    ∷ env_var "PGPORT" (itoa db.port)
    ∷ env_var "PGUSER" db.user
    ∷ env_var_from_secret "PGPASSWORD" db.password_ref.name db.password_ref.key
    ∷ env_var "PGDATABASE" db.db_name
    ∷ env_var "MIGRATION_TABLE" "supabase_operator._operator_migrations"
    ∷ env_var "MIGRATION_HASH" (migration_hash digest migration)
    ∷ env_var "MIGRATION_BATCH_PATH" "/etc/supabase/migrations/batch.sql"
    ∷ []

-- buildMigrationContainer and migrationVolumeMounts
unfoldable pub build_migration_container :
    Digest → Assets → Migration → ResolvedDatabase → Container
build_migration_container digest assets migration db =
    record (simple_container "migration" default_postgres_image ("/bin/sh" ∷ "-c" ∷ [])
      (assets.migration_apply_script ∷ []) (build_migration_env_vars digest migration db)) {
        volume_mounts =
            record {
              name = "migrations";
              mount_path = "/etc/supabase/migrations";
              sub_path = "";
              read_only = false;
            }
            ∷ [];
      }

unfoldable pub build_migration_volume : Migration → Volume
build_migration_volume migration =
    config_map_volume "migrations" (migration_config_map_name migration)

unfoldable pub migration_job :
    JsonText
    → Patching PodTemplateSpec
    → Digest
    → Assets
    → Migration
    → ResolvedDatabase
    → Outcome (Option Job)
unfolding migration_job_name migration_labels build_migration_container build_migration_volume
migration_job j p digest assets migration db = do
  template ←
      overlay j p
        (job_pod (migration_labels migration) (build_migration_container digest assets migration db)
          (build_migration_volume migration ∷ []))
        migration.spec.pod
  ok (
      some (
        operator_job
          (object_meta (migration_job_name migration) migration.meta.namespace
            (migration_labels migration))
          template))
