-- ===== src/Defaults/Project.antt =====
-- internal/defaults/project: the objects that a Project owns.
pub mod Sync
use supabase_kubernetes.Api.Migrations.{Migration}
use supabase_kubernetes.Api.Projects.{Project, ProjectMigrationsSpec}
use supabase_kubernetes.Defaults.Assets.{Assets}
use supabase_kubernetes.Go.Exec.{Exec, attempt, pure, raise}
use supabase_kubernetes.Go.GoMap.{GoMap, literal}
use supabase_kubernetes.Go.Outcome.{wrap}
use supabase_kubernetes.Helper.Random.{Random, generate_random_hex}
use supabase_kubernetes.Kube.Core.{Secret}
use supabase_kubernetes.Kube.Meta.{object_meta}
use supabase_kubernetes.Kube.Pod.{PodTemplateSpec}
use supabase_kubernetes.Prelude.{
  Bool, List, Option, String, [], concat, false, if◌then◌else◌, none, not, some, ℕ, ◌∷◌,
}

-- ProjectLabels
unfoldable pub project_labels : Project → GoMap String
project_labels project = literal (
    ("app.kubernetes.io/name", "project")
    ∷ ("app.kubernetes.io/component", "project")
    ∷ ("app.kubernetes.io/instance", project.meta.name)
    ∷ ("app.kubernetes.io/managed-by", "supabase-operator")
    ∷ [])

unfoldable pub jwt_secret_name : Project → String
jwt_secret_name project = concat (project.meta.name ∷ "-jwt" ∷ [])

unfoldable pub keys_secret_name : Project → String
keys_secret_name project = concat (project.meta.name ∷ "-keys" ∷ [])

-- the keys that ensureJWTSecret keeps, in its order
abbrev pub jwt_secret_keys : List String
jwt_secret_keys =
    "jwt-secret" ∷ "anon-key" ∷ "service-key" ∷ "jwt-keys" ∷ "jwt-jwks" ∷ "anon-key-asymmetric"
    ∷ "service-key-asymmetric" ∷ "publishable-key" ∷ "secret-key" ∷ []

-- the keys that ensureKeysSecret keeps, in its order
abbrev pub keys_secret_keys : List String
keys_secret_keys = "secret-key-base" ∷ "crypto-key" ∷ "vault-enc-key" ∷ "realtime-db-enc-key" ∷ []

-- one random text of KeysSecret
abbrev pub generating :
    {W : Type 0} → Random W → String → ℕ → (String → Exec W Secret) → Exec W Secret
generating rand what num_bytes next =
    attempt (generate_random_hex rand num_bytes)
      (λ e. raise (wrap (concat ("generating " ∷ what ∷ [])) e)) next

unfoldable pub keys_secret : {W : Type 0} → Random W → Project → Exec W Secret
unfolding keys_secret_name project_labels
keys_secret rand project = generating rand "secret key base" 64 λ secret_key_base.
    generating rand "crypto key" 32 λ crypto_key.
      generating rand "vault encryption key" 16 λ vault_enc_key.
        generating rand "realtime db encryption key" 8 λ realtime_db_enc_key. pure (record {
          meta =
              object_meta (keys_secret_name project) project.meta.namespace
                (project_labels project);
          type = "Opaque";
          data_map = literal (
              ("secret-key-base", secret_key_base)
              ∷ ("crypto-key", crypto_key)
              ∷ ("vault-enc-key", vault_enc_key)
              ∷ ("realtime-db-enc-key", realtime_db_enc_key)
              ∷ []);
        })

-- ProjectMigration1Name
unfoldable pub project_migration_name : Project → String
project_migration_name project = concat (project.meta.name ∷ "-migration-1" ∷ [])

-- `Migrations != nil && Migrations.Enable != nil && !*Migrations.Enable`
unfoldable pub migrations_disabled : Option ProjectMigrationsSpec → Bool
migrations_disabled none = false
migrations_disabled (some m) = elim m.enable [ none ↦ false | some enable ↦ not enable ]

abbrev pub migrations_pod : Option ProjectMigrationsSpec → Option PodTemplateSpec
migrations_pod none = none
migrations_pod (some m) = m.pod

-- ProjectMigration1
unfoldable pub project_migration : Assets → Project → Option Migration
unfolding project_migration_name project_labels migrations_disabled
project_migration assets project =
    if migrations_disabled project.spec.migrations
    then none
    else some (record {
      meta =
          object_meta (project_migration_name project) project.meta.namespace
            (project_labels project);
      spec = record {
        pod = migrations_pod project.spec.migrations;
        database_ref = project.spec.database_ref;
        migrations =
            record { name = "supabase.sql"; sql = assets.supabase_migration }
            ∷ record { name = "realtime.sql"; sql = assets.realtime_migration }
            ∷ record { name = "logs.sql"; sql = assets.logs_migration }
            ∷ record { name = "pooler.sql"; sql = assets.pooler_migration }
            ∷ record { name = "webhooks.sql"; sql = assets.webhooks_migration }
            ∷ [];
      };
      status = record { conditions = []; applied_hash = ""; applied_at = none };
    })
