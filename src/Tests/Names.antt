-- ===== src/Tests/Names.antt =====
-- The theorems on names, random texts and hashes at concrete inputs.
use mathlib.Core.List.{Permᴰ}
use supabase_kubernetes.Defaults.Assets.{Digest}
use supabase_kubernetes.Go.Exec.{pure}
use supabase_kubernetes.Go.GoMap.{GoMap, literal}
use supabase_kubernetes.Helper.Env.Hash.{hash_of}
use supabase_kubernetes.Helper.Env.Hash.Ordered.{hash_of-Perm}
use supabase_kubernetes.Helper.Name.{child_name, resource_name, short_digest}
use supabase_kubernetes.Helper.Name.Laws.{IsLabel, resource_name-IsLabel, resource_name-inj}
use supabase_kubernetes.Helper.Random.{Random, generate_random_alphanumeric}
use supabase_kubernetes.Helper.Random.Laws.{
  Draws, IsPassword, generate_random_alphanumeric-IsPassword,
}
use supabase_kubernetes.Prelude.{String, [], inl, refl, ◌∷◌, ◌≡◌, ◌⊎◌}

-- a digest of hexadecimal digits
abbrev hex_digest : Digest
hex_digest s = "0123456789abcdef0123456789abcdef"

-- an owner whose name starts with a digit and holds a dot
resource_name-IsLabel_example : IsLabel (resource_name hex_digest "1.db" "auth")
unfolding child_name
resource_name-IsLabel_example =
    resource_name-IsLabel hex_digest "1.db" "auth" (record { chars = refl; first = refl })
      (record { chars = refl; last = refl }) (record { chars = refl; full = refl })

resource_name-inj_example :
    (child_name "main" "auth" ≡ child_name "main" "auth")
    ⊎ (short_digest hex_digest (child_name "main" "auth")
        ≡ short_digest hex_digest (child_name "main" "auth"))
resource_name-inj_example = resource_name-inj hex_digest "main" "auth" "main" "auth" refl refl refl

-- a source that always draws zero
abbrev zeros : Random (Unit {0})
zeros = record { read = λ n. pure []; int = λ n. pure 0 }

zeros-Draws : Draws zeros
zeros-Draws n w pos = inl (0, refl, pos)

generate_random_alphanumeric-IsPassword_example :
    IsPassword 3 (generate_random_alphanumeric zeros 3 tt).0
generate_random_alphanumeric-IsPassword_example =
    generate_random_alphanumeric-IsPassword zeros zeros-Draws 3 tt

abbrev two_entries : GoMap String
two_entries = literal (("a", "1") ∷ ("b", "2") ∷ [])

hash_of-Perm_example :
    hash_of hex_digest ("a" ∷ "b" ∷ []) two_entries
    ≡ hash_of hex_digest ("b" ∷ "a" ∷ []) two_entries
hash_of-Perm_example =
    hash_of-Perm hex_digest two_entries two_entries ("a" ∷ "b" ∷ []) ("b" ∷ "a" ∷ [])
      (Permᴰ.swap refl refl) (λ k. refl)
