-- ===== src/Helper/Env/Laws.antt =====
-- What MergeEnvVars gives each name, and in which order.
use supabase_kubernetes.Go.GoMap.{with_entry}
use supabase_kubernetes.Helper.Env.Merge.{
  index_from, last_index, last_index-append, last_index-set_at, last_named, last_named-append,
  last_named-set_at, merge_env_vars, merge_from, set_at,
}
use supabase_kubernetes.Kube.Pod.{EnvVar}
use supabase_kubernetes.Prelude.{
  Bool, List, Option, Option-cases, String, [], ap, arith, eq_iff, false, if◌then◌else◌, inl, inr,
  length, map, none, refl, some, suc, sym, true, ℕ, ◌++◌, ◌+◌, ◌=s◌, ◌||◌, ◌∙◌, ◌∷◌, ◌≡◌,
}

-- `(some v)` over anything, and else what was there.
abbrev pub laid_over : Option EnvVar → Option EnvVar → Option EnvVar
laid_over none below = below
laid_over (some v) below = some v

shifted : ℕ → Option ℕ → Option ℕ → Option ℕ
shifted i none below = below
shifted i (some j) below = some (i + j)

index_from_lem :
    (xs : List EnvVar) (i : ℕ) (f : String → Option ℕ) (name : String)
    → index_from i xs f name ≡ shifted i (last_index name xs) (f name)
unfolding index_from shifted
index_from_lem [] i f name = refl
index_from_lem (x ∷ xs) i f name =
    let rest = index_from_lem xs (i + 1) (with_entry f x.name i) name in
    elim (Option-cases (last_index name xs)) [
      | inl absent ↦ ground (arith, rest, eq_iff x.name name)
      | inr (j, found) ↦ ground (arith, rest)
    ]

index_of_base :
    (base : List EnvVar) (name : String) → index_from 0 base (λ _. none) name ≡ last_index name base
unfolding shifted
index_of_base base name =
    let whole = index_from_lem base 0 (λ _. none) name in
    elim (Option-cases (last_index name base)) [
      | inl absent ↦ ground (arith, whole)
      | inr (j, found) ↦ ground (arith, whole)
    ]

names-set_at :
    (xs : List EnvVar) (i : ℕ) (e : EnvVar)
    → last_index e.name xs ≡ some i
    → map (λ v. v.name) (set_at i e xs) ≡ map (λ v. v.name) xs
unfolding set_at
names-set_at [] i e h = cc
names-set_at (x ∷ xs) i e h = elim (Option-cases (last_index e.name xs)) [
  | inl absent ↦
      let start : i ≡ 0 = ground arith in
      let same : e.name ≡ x.name = ground (arith, eq_iff x.name e.name) in
      rw start (ap (λ n. n ∷ map (λ v. v.name) xs) same)
  | inr (j, found) ↦
      let next : i ≡ suc j = ground arith in
      rw next (ap (λ ns. x.name ∷ ns) (names-set_at xs j e found))
]

abbrev is_among : String → List String → Bool
is_among name [] = false
is_among name (n ∷ ns) = (n =s name) || is_among name ns

-- the names of a list that are not seen before, each once, in the order in which they first occur
abbrev pub new_names : (seen names : List String) → List String
new_names seen [] = []
new_names seen (n ∷ ns) =
    let known = new_names seen ns in
    let rest = new_names (seen ++ n ∷ []) ns in if is_among n seen then known else n ∷ rest

abbrev pub names_of : List EnvVar → List String
names_of xs = map (λ e. e.name) xs

is_among-some :
    (name : String) (xs : List EnvVar) (i : ℕ)
    → last_index name xs ≡ some i
    → is_among name (names_of xs) ≡ true
is_among-some name [] i h = cc
is_among-some name (x ∷ xs) i h = elim (Option-cases (last_index name xs)) [
  | inl absent ↦ ground arith
  | inr (j, found) ↦ ground (arith, is_among-some name xs j found)
]

is_among-none :
    (name : String) (xs : List EnvVar)
    → last_index name xs ≡ none
    → is_among name (names_of xs) ≡ false
is_among-none name [] h = refl
is_among-none name (x ∷ xs) h = elim (Option-cases (last_index name xs)) [
  | inl absent ↦ ground (arith, is_among-none name xs absent)
  | inr (j, found) ↦ ground arith
]

-- The variables after the loop.
record Merged (es merged result : List EnvVar) : Type 0 where
  value :
      (name : String)
      → last_named name result ≡ laid_over (last_named name es) (last_named name merged)
  order : names_of result ≡ names_of merged ++ new_names (names_of merged) (names_of es)

map-append :
    (xs ys : List EnvVar)
    → map (λ e. e.name) (xs ++ ys) ≡ map (λ e. e.name) xs ++ map (λ e. e.name) ys
map-append [] ys = refl
map-append (x ∷ xs) ys = ap (λ ns. x.name ∷ ns) (map-append xs ys)

append_assoc : (xs ys zs : List String) → (xs ++ ys) ++ zs ≡ xs ++ (ys ++ zs)
append_assoc [] ys zs = refl
append_assoc (x ∷ xs) ys zs = ap (λ ns. x ∷ ns) (append_assoc xs ys zs)

append_nil : (xs : List String) → xs ++ [] ≡ xs
append_nil [] = refl
append_nil (x ∷ xs) = ap (λ ns. x ∷ ns) (append_nil xs)

merge_from_lem :
    (es merged : List EnvVar) (f : String → Option ℕ)
    → ((name : String) → f name ≡ last_index name merged)
    → Merged es merged (merge_from es merged f)
unfolding merge_from
merge_from_lem [] merged f h = record {
  value = λ name. refl;
  order = sym (append_nil (names_of merged));
}
merge_from_lem (e ∷ es) merged f h = elim (Option-cases (f e.name)) [
  | inr (i, found) ↦
      let here : last_index e.name merged ≡ some i = sym (h e.name) ∙ found in
      let rest =
        merge_from_lem es (set_at i e merged) f
          (λ name. h name ∙ sym (last_index-set_at merged i e name here)) in
      let known = is_among-some e.name merged i here in
      rw (found, merge_from)
        (record {
          value = λ name. ground (arith, rest.value name, last_named-set_at merged i e name here);
          order =
              rest.order
              ∙ ap (λ ns. ns ++ new_names ns (names_of es)) (names-set_at merged i e here)
              ∙ rw known refl;
        })
  | inl absent ↦
      let rest =
        merge_from_lem es (merged ++ e ∷ []) (with_entry f e.name (length merged))
          (λ name. ground (arith, h name, last_index-append merged e name)) in
      let unknown = is_among-none e.name merged (sym (h e.name) ∙ absent) in
      rw (absent, merge_from)
        (record {
          value = λ name. ground (arith, rest.value name, last_named-append merged e name);
          order =
              rest.order
              ∙ ap (λ ns. ns ++ new_names ns (names_of es)) (map-append merged (e ∷ []))
              ∙ append_assoc (names_of merged) (e.name ∷ [])
                  (new_names (names_of merged ++ e.name ∷ []) (names_of es))
              ∙ rw unknown refl;
        })
]

-- MergeEnvVars: of each name a container sees the last variable of the overlay where it has one, and
-- else the last one of the base. The result has the names of the base in their order, and then the
-- names of the overlay that the base does not have, each once, in the order in which the overlay has
-- them first: a variable that overrides one stands in its place.
pub merge_env_vars_lem :
    (base overlay : List EnvVar)
    → ((name : String)
        → last_named name (merge_env_vars base overlay)
          ≡ laid_over (last_named name overlay) (last_named name base))
      × (names_of (merge_env_vars base overlay)
          ≡ names_of base ++ new_names (names_of base) (names_of overlay))
unfolding merge_env_vars
merge_env_vars_lem base [] = (λ name. refl, sym (append_nil (names_of base)))
merge_env_vars_lem base (e ∷ es) =
    let m = merge_from_lem (e ∷ es) base (index_from 0 base (λ _. none)) (index_of_base base) in
    (m.value, m.order)
