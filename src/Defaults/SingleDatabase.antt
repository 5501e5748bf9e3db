-- ===== src/Defaults/SingleDatabase.antt =====
-- internal/defaults/singledatabase: the names and labels of what a SingleDatabase owns.
pub mod Objects
pub mod StatefulSet
use supabase_kubernetes.Api.Databases.{SingleDatabase}
use supabase_kubernetes.Go.GoMap.{GoMap, literal}
use supabase_kubernetes.Helper.ClusterDomain.{service_fqdn}
use supabase_kubernetes.Prelude.{String, [], concat, ℕ, ◌∷◌}

-- PostgresLabels
unfoldable pub postgres_labels : SingleDatabase → GoMap String
postgres_labels db = literal (
    ("app.kubernetes.io/name", "postgres")
    ∷ ("app.kubernetes.io/component", "database")
    ∷ ("app.kubernetes.io/instance", db.meta.name)
    ∷ ("app.kubernetes.io/managed-by", "supabase-operator")
    ∷ [])

-- PostgresSelectorLabels
unfoldable pub postgres_selector_labels : SingleDatabase → GoMap String
postgres_selector_labels db = literal (
    ("app.kubernetes.io/name", "postgres")
    ∷ ("app.kubernetes.io/component", "database")
    ∷ ("app.kubernetes.io/instance", db.meta.name)
    ∷ [])

abbrev pub default_postgres_port : ℕ
default_postgres_port = 5432

abbrev pub default_postgres_user : String
default_postgres_user = "supabase_admin"

abbrev pub default_postgres_database : String
default_postgres_database = "postgres"

abbrev pub postgres_custom_sub_path : String
postgres_custom_sub_path = "postgres-custom"

unfoldable pub postgres_secret_name : SingleDatabase → String
postgres_secret_name db = concat (db.meta.name ∷ "-postgres-auth" ∷ [])

unfoldable pub postgres_pvc_name : SingleDatabase → String
postgres_pvc_name db = concat (db.meta.name ∷ "-postgres-data" ∷ [])

unfoldable pub postgres_service_name : SingleDatabase → String
postgres_service_name db = concat (db.meta.name ∷ "-postgres" ∷ [])

unfoldable pub postgres_stateful_set_name : SingleDatabase → String
postgres_stateful_set_name db = concat (db.meta.name ∷ "-postgres" ∷ [])

unfoldable pub postgres_service_host : String → SingleDatabase → String
unfolding service_fqdn postgres_service_name
postgres_service_host cluster_domain db =
    service_fqdn cluster_domain (postgres_service_name db) db.meta.namespace

abbrev pub secret_key_password : String
secret_key_password = "password"
