-- ===== src/Go/Strings/Order.antt =====
-- The order of texts, and sort.Strings.
use Prim.Native.Char.{code}
use mathlib.Core.List.{Permᴰ}
use text.Mathlib.TextEquality.{Char-path}
use supabase_kubernetes.Go.Strings.{insert_string, less, sort_strings}
use supabase_kubernetes.Prelude.{
  Bool-cases, List, String, [], ap, arith, false, false≢true, inl, inr, refl, sym, true, ◌∙◌, ◌∷◌,
  ◌≡◌,
}

asym : (s t : String) → less s t ≡ true → less t s ≡ false
unfolding less
asym String.[] String.[] h = refl
asym String.[] (String.◌∷◌ d t) h = refl
asym (String.◌∷◌ c s) String.[] h = cc
asym (String.◌∷◌ c s) (String.◌∷◌ d t) h = ground (arith, asym s t)

not_less_trans : (s t u : String) → less s t ≡ false → less t u ≡ false → less s u ≡ false
unfolding less
not_less_trans String.[] String.[] u h k = k
not_less_trans String.[] (String.◌∷◌ d t) u h k = cc
not_less_trans (String.◌∷◌ c s) String.[] String.[] h k = refl
not_less_trans (String.◌∷◌ c s) String.[] (String.◌∷◌ e u) h k = cc
not_less_trans (String.◌∷◌ c s) (String.◌∷◌ d t) String.[] h k = refl
not_less_trans (String.◌∷◌ c s) (String.◌∷◌ d t) (String.◌∷◌ e u) h k =
    ground (arith, not_less_trans s t u)

same : (s t : String) → less s t ≡ false → less t s ≡ false → s ≡ t
unfolding less
same String.[] String.[] h k = refl
same String.[] (String.◌∷◌ d t) h k = cc
same (String.◌∷◌ c s) String.[] h k = cc
same (String.◌∷◌ c s) (String.◌∷◌ d t) h k =
    let codes : code c ≡ code d = ground arith in
    let rests : (less s t ≡ false) × (less t s ≡ false) =
      (ground (arith, codes), ground (arith, codes)) in
    λ i. String.◌∷◌ (Char-path c d codes i) (same s t rests.0 rests.1 i)

below : (x y z : String) → less x y ≡ false → less z y ≡ true → less z x ≡ true
below x y z xy zy = elim (Bool-cases (less z x)) [
  | inl zx ↦ zx
  | inr nx ↦ absurd (false≢true (sym (not_less_trans z x y nx xy) ∙ zy))
]

insert-ordered :
    (x y : String) (l : List String)
    → less y x ≡ true
    → insert_string x (insert_string y l) ≡ insert_string y (insert_string x l)
unfolding insert_string
insert-ordered x y [] yx = rw (yx, asym y x yx, insert_string) refl
insert-ordered x y (z ∷ zs) yx = elim (Bool-cases (less z y)) [
  | inl zy ↦
      let zx = below x y z (asym y x yx) zy in
      rw (zy, zx, insert_string) (rw zy (ap (λ l. z ∷ l) (insert-ordered x y zs yx)))
  | inr ny ↦ elim (Bool-cases (less z x)) [
    | inl zx ↦ rw (ny, zx, insert_string, yx) (rw ny refl)
    | inr nx ↦ rw (ny, nx, insert_string, yx) (rw (asym y x yx) refl)
  ]
]

-- The order in which two keys are inserted does not matter.
insert_string_comm :
    (x y : String) (l : List String)
    → insert_string x (insert_string y l) ≡ insert_string y (insert_string x l)
insert_string_comm x y l = elim (Bool-cases (less y x)) [
  | inl yx ↦ insert-ordered x y l yx
  | inr ny ↦ elim (Bool-cases (less x y)) [
    | inl xy ↦ sym (insert-ordered y x l xy)
    | inr nx ↦
        ap (λ z. insert_string x (insert_string z l)) (same y x ny nx)
        ∙ ap (λ z. insert_string z (insert_string x l)) (same x y nx ny)
  ]
]

pub sort_strings-Permᴰ : {l l' : List String} → Permᴰ l l' → sort_strings l ≡ sort_strings l'
unfolding sort_strings
sort_strings-Permᴰ Permᴰ.nil = refl
sort_strings-Permᴰ (Permᴰ.cons e p) = λ i. insert_string (e i) (sort_strings-Permᴰ p i)
sort_strings-Permᴰ (Permᴰ.swap {a} {b} {l = l} e e') =
    insert_string_comm a b (sort_strings l)
    ∙ (λ i. insert_string (e' i) (insert_string (e i) (sort_strings l)))
sort_strings-Permᴰ (Permᴰ.trans p q) = sort_strings-Permᴰ p ∙ sort_strings-Permᴰ q
