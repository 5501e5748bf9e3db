-- ===== src/Helper/Env/Merge.antt =====
-- MergeEnvVars of internal/helper/env.go: variables laid over others by name, with an index.
use supabase_kubernetes.Go.GoMap.{index, with_entry}
use supabase_kubernetes.Kube.Pod.{EnvVar}
use supabase_kubernetes.Prelude.{
  List, Option, Option-cases, String, [], arith, eq_iff, if◌then◌else◌, inl, inr, length, none,
  refl, some, suc, zero, ℕ, ◌++◌, ◌+◌, ◌<◌, ◌=s◌, ◌∷◌, ◌≡◌,
}

-- `merged[i] = e`; out of range it would panic, and the index is never out of range.
unfoldable pub set_at : ℕ → EnvVar → List EnvVar → List EnvVar
set_at i e [] = []
set_at zero e (x ∷ xs) = e ∷ xs
set_at (suc i) e (x ∷ xs) = x ∷ set_at i e xs

-- the loop that indexes the variables from position `i` on
unfoldable pub index_from : ℕ → List EnvVar → (String → Option ℕ) → String → Option ℕ
index_from i [] index = index
index_from i (e ∷ es) index = index_from (i + 1) es (with_entry index e.name i)

-- the loop over the overlay
unfoldable pub merge_from : List EnvVar → List EnvVar → (String → Option ℕ) → List EnvVar
merge_from [] merged index = merged
merge_from (e ∷ es) merged index = elim (index e.name) [
  | some i ↦ merge_from es (set_at i e merged) index
  | none ↦ merge_from es (merged ++ e ∷ []) (with_entry index e.name (length merged))
]

unfoldable pub merge_env_vars : List EnvVar → List EnvVar → List EnvVar
unfolding index_from merge_from
merge_env_vars base [] = base
merge_env_vars base (e ∷ es) = merge_from (e ∷ es) base (index_from 0 base (λ _. none))

-- The variable of a name that a container sees: of several it is the last.
abbrev pub last_named : String → List EnvVar → Option EnvVar
last_named name [] = none
last_named name (e ∷ es) = elim (last_named name es) [
  | some later ↦ some later
  | none ↦ if e.name =s name then some e else none
]

abbrev pub last_index : String → List EnvVar → Option ℕ
last_index name [] = none
last_index name (e ∷ es) = elim (last_index name es) [
  | some i ↦ some (i + 1)
  | none ↦ if e.name =s name then some 0 else none
]

last_index-none :
    (name : String) (xs : List EnvVar) → last_index name xs ≡ none → last_named name xs ≡ none
last_index-none name [] h = refl
last_index-none name (x ∷ xs) h = ground (arith, last_index-none name xs)

last_index-bounded :
    (name : String) (xs : List EnvVar) (i : ℕ) → last_index name xs ≡ some i → i < length xs
last_index-bounded name [] i h = cc
last_index-bounded name (x ∷ xs) i h = elim (Option-cases (last_index name xs)) [
  | inl absent ↦ ground arith
  | inr (j, found) ↦ let below = last_index-bounded name xs j found in ground arith
]

-- Writing at the last position of a name changes the variable of this name only.
pub last_named-set_at :
    (xs : List EnvVar) (i : ℕ) (e : EnvVar) (name : String)
    → last_index e.name xs ≡ some i
    → last_named name (set_at i e xs) ≡ (if e.name =s name then some e else last_named name xs)
unfolding set_at
last_named-set_at [] i e name h = cc
last_named-set_at (x ∷ xs) i e name h = elim (Option-cases (last_index e.name xs)) [
  | inl absent ↦
      let unseen = last_index-none e.name xs absent in
      let start : i ≡ 0 = ground arith in
      rw start (ground (arith, eq_iff e.name name, eq_iff x.name name, eq_iff x.name e.name))
  | inr (j, found) ↦
      let next : i ≡ suc j = ground arith in
      let rest = last_named-set_at xs j e name found in rw next (ground (arith, eq_iff e.name name))
]

pub last_index-set_at :
    (xs : List EnvVar) (i : ℕ) (e : EnvVar) (name : String)
    → last_index e.name xs ≡ some i
    → last_index name (set_at i e xs) ≡ last_index name xs
unfolding set_at
last_index-set_at [] i e name h = cc
last_index-set_at (x ∷ xs) i e name h = elim (Option-cases (last_index e.name xs)) [
  | inl absent ↦
      let start : i ≡ 0 = ground arith in
      rw start (ground (arith, eq_iff e.name name, eq_iff x.name name, eq_iff x.name e.name))
  | inr (j, found) ↦
      let next : i ≡ suc j = ground arith in
      let rest = last_index-set_at xs j e name found in rw next (ground arith)
]

pub last_named-append :
    (xs : List EnvVar) (e : EnvVar) (name : String)
    → last_named name (xs ++ e ∷ []) ≡ (if e.name =s name then some e else last_named name xs)
last_named-append [] e name = refl
last_named-append (x ∷ xs) e name = ground (arith, last_named-append xs e name)

pub last_index-append :
    (xs : List EnvVar) (e : EnvVar) (name : String)
    → last_index name (xs ++ e ∷ [])
      ≡ (if e.name =s name then some (length xs) else last_index name xs)
last_index-append [] e name = refl
last_index-append (x ∷ xs) e name = ground (arith, last_index-append xs e name)
