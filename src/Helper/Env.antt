-- ===== src/Helper/Env.antt =====
-- internal/helper/env.go: environment variables.
pub mod Hash
pub mod Merge
pub mod Laws
use supabase_kubernetes.Kube.Pod.{EnvVar}
use supabase_kubernetes.Prelude.{String, none, some}

-- EnvVar
unfoldable pub env_var : String → String → EnvVar
env_var name value = record { name = name; value = value; value_from = none }

unfoldable pub env_var_from_secret : String → String → String → EnvVar
env_var_from_secret name secret_name key = record {
  name = name;
  value = "";
  value_from = some (record {
    secret_key_ref = some (record { name = secret_name; key = key; optional = none });
    config_map_key_ref = none;
    rest = "";
  });
}

unfoldable pub env_var_from_config_map : String → String → String → EnvVar
env_var_from_config_map name config_map_name key = record {
  name = name;
  value = "";
  value_from = some (record {
    secret_key_ref = none;
    config_map_key_ref = some (record { name = config_map_name; key = key; optional = none });
    rest = "";
  });
}
