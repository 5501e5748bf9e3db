-- ===== src/Helper/Env/Hash.antt =====
-- ConfigMapHash and SecretHash of internal/helper/env.go.
pub mod Ordered
use supabase_kubernetes.Defaults.Assets.{Digest}
use supabase_kubernetes.Go.GoMap.{GoMap, text_at}
use supabase_kubernetes.Go.Strings.{sort_strings}
use supabase_kubernetes.Kube.Core.{ConfigMap, Secret}
use supabase_kubernetes.Prelude.{
  Bool, List, String, [], concat, false, if◌then◌else◌, ltb, true, ◌==◌, ◌∷◌,
}

-- what is written to the hash
unfoldable pub hashed_entries : GoMap String → List String → String
hashed_entries m [] = ""
hashed_entries m (k ∷ keys) = concat (k ∷ "=" ∷ text_at m k ∷ "\n" ∷ hashed_entries m keys ∷ [])

-- the hash, for the order in which the keys of the map are visited
unfoldable pub hash_of : Digest → List String → GoMap String → String
unfolding hashed_entries sort_strings
hash_of digest keys m = digest (hashed_entries m (sort_strings keys))

-- SecretHash
unfoldable pub secret_hash : Digest → (GoMap String → List String) → Secret → String
unfolding hash_of
secret_hash digest keys secret = hash_of digest (keys secret.data_map) secret.data_map

-- ConfigMapHash
unfoldable pub config_map_hash : Digest → (GoMap String → List String) → ConfigMap → String
unfolding hash_of
config_map_hash digest keys config = hash_of digest (keys config.data_map) config.data_map
