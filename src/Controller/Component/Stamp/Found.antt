-- ===== src/Controller/Component/Stamp/Found.antt =====
-- What the loops of StampInputs read, and the contents.
use Prim.Native.Char.{Char, code}
use Prim.Native.String
use text.Mathlib.TextLemmas.{append-nil, append_cancel_left, cons-append}
use supabase_kubernetes.Controller.Component.Stamp.{
  Contents, Input, Optional, config_input, read_inputs,
}
use supabase_kubernetes.Controller.Component.Stamp.Reads.{Mentions}
use supabase_kubernetes.Go.GoMap.{with_entry}
use supabase_kubernetes.Go.Outcome.{Error, Outcome, err, ok, panic}
use supabase_kubernetes.Kube.Client.{Client}
use supabase_kubernetes.Kube.Core.{ConfigMap}
use supabase_kubernetes.Prelude.{
  Bool-cases, String, [], ap, arith, concat, eq_iff, false, false≢true, if◌then◌else◌, inl, inr,
  refl, some, sym, ℕ, ◌&&◌, ◌=s◌, ◌∙◌, ◌∷◌, ◌≡◌, ◌≢◌, ◌⊎◌,
}
use supabase_kubernetes.Reconciler.Ensure.{is_not_found}

-- the key of the object of a name
abbrev pub key_of : String → String → String
key_of prefix n = concat (prefix ∷ n ∷ [])

key_of-inj : (prefix n m : String) → key_of prefix n ≡ key_of prefix m → n ≡ m
key_of-inj prefix n m h = sym (append-nil n) ∙ append_cancel_left prefix _ _ h ∙ append-nil m

-- Both objects are read from the same state, so that a name stands for one of them.
same_read :
    {W T : Type 0} (c : Client W T) (namespace n name : String) (w : W) {t u : T}
    → c.get namespace n w ≡ ok u
    → c.get namespace name w ≡ ok t
    → n ≡ name
    → u ≡ t
same_read c namespace n name w got found e = cc

module _ {W T : Type 0} (c : Client W T) (input : T → Input) (prefix namespace name : String)
    (t : T) (w : W) (found : c.get namespace name w ≡ ok t) where
  entry_lem :
      (n : String) (u : T) (contents : Contents)
      → c.get namespace n w ≡ ok u
      → contents (key_of prefix name) ≡ some (input t) ⊎ (n ≡ name)
      → with_entry contents (key_of prefix n) (input u) (key_of prefix name) ≡ some (input t)
  entry_lem n u contents got h = elim (Bool-cases (key_of prefix n =s key_of prefix name)) [
    | inl same ↦ rw same (
        ap (λ v. some (input v))
          (same_read c namespace n name w got found
            (key_of-inj prefix n name ((eq_iff (key_of prefix n) (key_of prefix name)).0 same))))
    | inr apart ↦ rw apart (kept apart h)
  ]
    where
      kept :
          (key_of prefix n =s key_of prefix name) ≡ false
          → contents (key_of prefix name) ≡ some (input t) ⊎ (n ≡ name)
          → contents (key_of prefix name) ≡ some (input t)
      kept apart (inl e) = e
      kept apart (inr e) = absurd (
          false≢true
            (sym apart ∙ (eq_iff (key_of prefix n) (key_of prefix name)).1 (ap (key_of prefix) e)))

  -- The loop ends with an entry for an object that exists and is named, or was entered before.
  pub read_inputs-finds :
      (inputs : Optional) (contents out : Contents)
      → read_inputs c input prefix namespace inputs contents w ≡ ok out
      → contents (key_of prefix name) ≡ some (input t) ⊎ Mentions name inputs
      → out (key_of prefix name) ≡ some (input t)
  unfolding read_inputs
  read_inputs-finds [] contents out run (inl e) = cc
  read_inputs-finds [] contents out run (inr m) = absurd m
  read_inputs-finds ((n, optional) ∷ inputs) contents out run h =
      step (c.get namespace n w) refl (read_inputs-finds inputs) run h
    where
      entered :
          (u : T)
          → c.get namespace n w ≡ ok u
          → contents (key_of prefix name) ≡ some (input t) ⊎ ((n ≡ name) ⊎ Mentions name inputs)
          → with_entry contents (key_of prefix n) (input u) (key_of prefix name) ≡ some (input t)
            ⊎ Mentions name inputs
      entered u got (inl e) = inl (entry_lem n u contents got (inl e))
      entered u got (inr (inl e)) = inl (entry_lem n u contents got (inr e))
      entered u got (inr (inr m)) = inr m

      missed :
          (e : Error)
          → c.get namespace n w ≡ err e
          → contents (key_of prefix name) ≡ some (input t) ⊎ ((n ≡ name) ⊎ Mentions name inputs)
          → contents (key_of prefix name) ≡ some (input t) ⊎ Mentions name inputs
      missed e got (inl k) = inl k
      missed e got (inr (inl same)) = cc
      missed e got (inr (inr m)) = inr m

      step :
          (r : Outcome T)
          → c.get namespace n w ≡ r
          → ((contents' out' : Contents)
              → read_inputs c input prefix namespace inputs contents' w ≡ ok out'
              → contents' (key_of prefix name) ≡ some (input t) ⊎ Mentions name inputs
              → out' (key_of prefix name) ≡ some (input t))
          → (elim r [
            | ok t ↦
                read_inputs c input prefix namespace inputs
                  (with_entry contents (concat (prefix ∷ n ∷ [])) (input t))
                  w
            | err e ↦
                let skipped = read_inputs c input prefix namespace inputs contents w in
                if optional && is_not_found e then skipped else err e
            | panic ↦ panic
          ])
            ≡ ok out
          → contents (key_of prefix name) ≡ some (input t) ⊎ ((n ≡ name) ⊎ Mentions name inputs)
          → out (key_of prefix name) ≡ some (input t)
      step (ok u) got rest run h = rest _ out run (entered u got h)
      step (err e) got rest run h = elim (Bool-cases (optional && is_not_found e)) [
        | inl skip ↦ rest contents out (rw skip at run) (missed e got h)
        | inr stop ↦ cc
      ]
      step panic got rest run h = cc

initial : String → ℕ
initial String.[] = 0
initial (String.◌∷◌ c s) = code c

initial-append : (c : Char) (s t : String) → initial (String.◌++◌ (String.◌∷◌ c s) t) ≡ code c
unfolding initial
initial-append c s t = rw cons-append refl

-- The keys of ConfigMaps are none of the keys of Secrets.
keys_apart : (n name : String) → (key_of "config/" n =s key_of "secret/" name) ≡ false
unfolding initial
keys_apart n name = elim (Bool-cases (key_of "config/" n =s key_of "secret/" name)) [
  | inl same ↦ absurd (differ ((eq_iff (key_of "config/" n) (key_of "secret/" name)).0 same))
  | inr apart ↦ apart
]
  where
    differ : key_of "config/" n ≢ key_of "secret/" name
    differ e =
        let starts : b'c' ≡ b's' =
          sym (initial-append "c" "onfig/" (concat (n ∷ [])))
          ∙ ap initial e
          ∙ initial-append "s" "ecret/" (concat (name ∷ [])) in
        omega (arith, starts)

module _ {W : Type 0} (configs : Client W ConfigMap) (namespace name : String) (w : W) where
  -- The loop over the ConfigMaps leaves the entries of Secrets.
  pub read_inputs-leaves :
      (inputs : Optional) (contents out : Contents)
      → read_inputs configs
          (λ c. config_input c.data_map c.binary_data)
          "config/"
          namespace
          inputs
          contents
          w
        ≡ ok out
      → out (key_of "secret/" name) ≡ contents (key_of "secret/" name)
  unfolding read_inputs
  read_inputs-leaves [] contents out run = cc
  read_inputs-leaves ((n, optional) ∷ inputs) contents out run =
      step (configs.get namespace n w) (read_inputs-leaves inputs) run
    where
      step :
          (r : Outcome ConfigMap)
          → ((contents' out' : Contents)
              → read_inputs configs
                  (λ c. config_input c.data_map c.binary_data)
                  "config/"
                  namespace
                  inputs
                  contents'
                  w
                ≡ ok out'
              → out' (key_of "secret/" name) ≡ contents' (key_of "secret/" name))
          → (elim r [
            | ok c ↦
                read_inputs configs
                  (λ c. config_input c.data_map c.binary_data)
                  "config/"
                  namespace
                  inputs
                  (with_entry contents
                    (concat ("config/" ∷ n ∷ []))
                    (config_input c.data_map c.binary_data))
                  w
            | err e ↦
                let skipped =
                  read_inputs configs
                    (λ c. config_input c.data_map c.binary_data)
                    "config/"
                    namespace
                    inputs
                    contents
                    w in
                if optional && is_not_found e then skipped else err e
            | panic ↦ panic
          ])
            ≡ ok out
          → out (key_of "secret/" name) ≡ contents (key_of "secret/" name)
      step (ok c) rest run = rw (rest _ out run, keys_apart n name) refl
      step (err e) rest run = elim (Bool-cases (optional && is_not_found e)) [
        | inl skip ↦ rest contents out (rw skip at run)
        | inr stop ↦ cc
      ]
      step panic rest run = cc
