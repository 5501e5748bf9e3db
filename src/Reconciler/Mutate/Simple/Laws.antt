-- ===== src/Reconciler/Mutate/Simple/Laws.antt =====
-- What MutateSecret and MutateConfigMap keep, and their second run.
use text.Mathlib.TextPositions.{eq_refl}
use supabase_kubernetes.Go.GoMap.{GoMap, index, made, nil, text_at, with_entry}
use supabase_kubernetes.Go.Outcome.{ok, panic}
use supabase_kubernetes.Kube.Core.{ConfigMap, Secret}
use supabase_kubernetes.Prelude.{
  Bool, List, Option, Option-cases, String, [], ap, arith, eq_iff, false, inl, inr, is_some, none,
  refl, some, true, ◌=s◌, ◌||◌, ◌↔◌, ◌∷◌, ◌≡◌, ◌≢◌,
}
use supabase_kubernetes.Reconciler.Mutate.Simple.{copy_missing, mutate_config_map, mutate_secret}
use supabase_kubernetes.Reconciler.StringMap.{merge_string_maps_idem}

abbrev pub listed : String → List String → Bool
listed k [] = false
listed k (key ∷ keys) = (key =s k) || listed k keys

-- The value of a key after the loop.
abbrev pub filled : Bool → Option String → String → Option String
filled is_listed (some v) fresh = some v
filled true none fresh = some fresh
filled false none fresh = none

copy_missing_made :
    (keys : List String) (f : String → Option String) (desired : GoMap String)
    → (g : String → Option String) × (copy_missing keys (made f) desired ≡ ok (made g))
      × ((k : String) → g k ≡ filled (listed k keys) (f k) (text_at desired k))
unfolding copy_missing
copy_missing_made [] f desired = (f, refl, λ k. ground arith)
copy_missing_made (key ∷ keys) f desired = elim (Option-cases (f key)) [
  | inr (v, e) ↦
      let (g, run, at) = copy_missing_made keys f desired in
      (g, rw (e, copy_missing) run, λ k. ground (arith, at k, eq_iff key k))
  | inl e ↦
      let (g, run, at) = copy_missing_made keys (with_entry f key (text_at desired key)) desired in
      (g, rw (e, copy_missing) run, λ k. ground (arith, at k, eq_iff key k))
]

-- A nil map is left alone if no key is asked for, and is written to if one is.
copy_missing_nil :
    (keys : List String) (desired : GoMap String)
    → (copy_missing keys nil desired ≡ panic) ↔ (keys ≢ [])
unfolding copy_missing
copy_missing_nil [] desired = (λ e. cc, λ h. absurd (h refl))
copy_missing_nil (key ∷ keys) desired = (λ e p. cc, λ h. refl)

index-copy_missing :
    (keys : List String) (existing desired : GoMap String) {result : GoMap String}
    → copy_missing keys existing desired ≡ ok result
    → (k : String) → index result k ≡ filled (listed k keys) (index existing k) (text_at desired k)
index-copy_missing [] nil desired e k = unfold copy_missing in ground arith
index-copy_missing (key ∷ keys) nil desired e k = cc ((copy_missing_nil (key ∷ keys) desired).1 cc)
index-copy_missing keys (made f) desired e k =
    let (g, run, at) = copy_missing_made keys f desired in ground (arith, at k)

-- The two outcomes of MutateSecret that are not errors, by the loop's.
mutate_secret-eq-ok :
    (keys : List String) (existing desired : Secret) {mutated : Secret}
    → mutate_secret keys existing desired ≡ ok mutated
    → copy_missing keys existing.data_map desired.data_map ≡ ok mutated.data_map
unfolding mutate_secret
mutate_secret-eq-ok keys existing desired e = ground arith

-- MutateSecret never changes the value of a key that the Secret of the cluster has, sets each
-- listed key that it lacks to the desired value, and adds no other key.
pub index-mutate_secret :
    (keys : List String) (existing desired mutated : Secret)
    → mutate_secret keys existing desired ≡ ok mutated
    → (k : String)
    → index mutated.data_map k
      ≡ filled (listed k keys) (index existing.data_map k) (text_at desired.data_map k)
index-mutate_secret keys existing desired mutated e k =
    index-copy_missing keys _ _ (mutate_secret-eq-ok keys existing desired e) k

copy_missing_panics :
    (keys : List String) (existing desired : GoMap String)
    → (copy_missing keys existing desired ≡ panic) ↔ ((existing ≡ nil) × (keys ≢ []))
copy_missing_panics keys nil desired =
    (λ e. (refl, (copy_missing_nil keys desired).0 e), λ h. (copy_missing_nil keys desired).1 h.1)
copy_missing_panics keys (made f) desired =
    let (g, run, at) = copy_missing_made keys f desired in (λ e. cc, λ h. cc h.0)

-- MutateSecret panics exactly where the Secret of the cluster has no data map and at least one key
-- is listed.
pub mutate_secret_panics :
    (keys : List String) (existing desired : Secret)
    → (mutate_secret keys existing desired ≡ panic) ↔ ((existing.data_map ≡ nil) × (keys ≢ []))
unfolding mutate_secret
mutate_secret_panics keys existing desired =
    let (there, back) = copy_missing_panics keys existing.data_map desired.data_map in
    (λ e. there (ground arith), λ h. ground (arith, back h))

copy_missing_full :
    (keys : List String) (f : String → Option String) (desired : GoMap String)
    → ((k : String) → listed k keys ≡ true → is_some (f k) ≡ true)
    → copy_missing keys (made f) desired ≡ ok (made f)
unfolding copy_missing
copy_missing_full [] f desired h = refl
copy_missing_full (key ∷ keys) f desired h = elim (Option-cases (f key)) [
  | inr (v, e) ↦ rw (e, copy_missing) (copy_missing_full keys f desired (λ k l. h k (ground arith)))
  | inl e ↦ cc (h key (rw eq_refl refl), ap is_some e)
]

copy_missing_idem :
    (keys : List String) (existing desired : GoMap String) {result : GoMap String}
    → copy_missing keys existing desired ≡ ok result
    → copy_missing keys result desired ≡ ok result
copy_missing_idem [] existing desired e = unfold copy_missing in refl
copy_missing_idem (key ∷ keys) nil desired e = cc ((copy_missing_nil (key ∷ keys) desired).1 cc)
copy_missing_idem keys (made f) desired e =
    let (g, run, at) = copy_missing_made keys f desired in
    let full : copy_missing keys (made g) desired ≡ ok (made g) =
      copy_missing_full keys g desired (λ k l. ground (arith, at k)) in
    ground arith

-- A second run of MutateSecret, with the same desired Secret, changes nothing.
pub mutate_secret_idem :
    (keys : List String) (existing desired mutated : Secret)
    → mutate_secret keys existing desired ≡ ok mutated
    → mutate_secret keys mutated desired ≡ ok mutated
mutate_secret_idem keys existing desired mutated e =
    let same = copy_missing_idem keys _ _ (mutate_secret-eq-ok keys existing desired e) in
    unfold mutate_secret in ground arith

-- A second run of MutateConfigMap, with the same desired ConfigMap, changes nothing.
pub mutate_config_map_idem :
    (existing desired mutated : ConfigMap)
    → mutate_config_map existing desired ≡ ok mutated
    → mutate_config_map mutated desired ≡ ok mutated
unfolding mutate_config_map
mutate_config_map_idem existing desired mutated e =
    ground (arith, merge_string_maps_idem existing.meta.annotations desired.meta.annotations)
