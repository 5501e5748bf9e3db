-- ===== src/Helper/Env/Hash/Ordered.antt =====
-- The hashes and the order in which Go visits a map.
use mathlib.Core.List.{Permᴰ}
use supabase_kubernetes.Defaults.Assets.{Digest}
use supabase_kubernetes.Go.GoMap.{GoMap, text_at}
use supabase_kubernetes.Go.Strings.{sort_strings}
use supabase_kubernetes.Go.Strings.Order.{sort_strings-Permᴰ}
use supabase_kubernetes.Helper.Env.Hash.{hash_of, hashed_entries}
use supabase_kubernetes.Prelude.{List, String, [], ap, concat, refl, ◌∙◌, ◌∷◌, ◌≡◌}

-- The hash of a Secret or of a ConfigMap is the same in whatever order Go visits its keys, and tells
-- nothing of the map but the texts under its keys: two maps that give the same text under every key,
-- with the keys listed in two orders, have one hash.
pub hash_of-Perm :
    (digest : Digest) (m m' : GoMap String) (keys keys' : List String)
    → Permᴰ keys keys'
    → ((k : String) → text_at m k ≡ text_at m' k)
    → hash_of digest keys m ≡ hash_of digest keys' m'
unfolding hash_of
hash_of-Perm digest m m' keys keys' p agree =
    ap digest (ap (hashed_entries m) (sort_strings-Permᴰ p) ∙ entries (sort_strings keys'))
  where
    entries : (ks : List String) → hashed_entries m ks ≡ hashed_entries m' ks
    entries [] = refl
    entries (k ∷ ks) = λ i. concat (k ∷ "=" ∷ agree k i ∷ "\n" ∷ entries ks i ∷ [])
