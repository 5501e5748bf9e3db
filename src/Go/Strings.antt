-- ===== src/Go/Strings.antt =====
-- The functions of the packages sort and strings that the code calls.
pub mod Order
use Prim.Native.Char.{code}
use supabase_kubernetes.Prelude.{
  Bool, List, String, [], arith, concat, false, if◌then◌else◌, refl, true, ℕ, ◌&&◌, ◌==◌, ◌||◌, ◌↔◌,
  ◌∷◌, ◌≡◌, ◌≢◌, ltb,
}

-- `s < t` on texts, by code points: UTF-8 keeps their order
unfoldable less : String → String → Bool
less String.[] String.[] = false
less String.[] (String.◌∷◌ d t) = true
less (String.◌∷◌ c s) String.[] = false
less (String.◌∷◌ c s) (String.◌∷◌ d t) =
    let rest = less s t in if code c == code d then rest else ltb (code c) (code d)

unfoldable pub insert_string : String → List String → List String
unfolding less
insert_string s [] = s ∷ []
insert_string s (t ∷ ts) =
    let rest = insert_string s ts in if less t s then t ∷ rest else s ∷ t ∷ ts

-- sort.Strings
unfoldable pub sort_strings : List String → List String
unfolding insert_string
sort_strings [] = []
sort_strings (s ∷ ss) = insert_string s (sort_strings ss)

-- strings.Join(names, ", ")
unfoldable pub join_names : List String → String
join_names [] = ""
join_names (s ∷ []) = s
join_names (s ∷ t ∷ ss) = concat (s ∷ ", " ∷ join_names (t ∷ ss) ∷ [])

abbrev pub is_empty : String → Bool
is_empty String.[] = true
is_empty (String.◌∷◌ c s) = false

-- whether a text holds a character
unfoldable pub has_char : ℕ → String → Bool
has_char n String.[] = false
has_char n (String.◌∷◌ c s) = (code c == n) || has_char n s

-- strings.TrimRight(s, cutset), for a cutset of one character
unfoldable pub trim_right : ℕ → String → String
trim_right cut String.[] = String.[]
trim_right cut (String.◌∷◌ c s) =
    let rest = trim_right cut s in
    if code c == cut && is_empty rest then String.[] else String.◌∷◌ c rest

insert_string-nonempty : (s : String) (ss : List String) → insert_string s ss ≢ []
unfolding insert_string
insert_string-nonempty s [] e = cc
insert_string-nonempty s (t ∷ ts) e = ground arith

pub sort_strings-eq-nil : (ss : List String) → (sort_strings ss ≡ []) ↔ (ss ≡ [])
unfolding sort_strings
sort_strings-eq-nil [] = (λ e. refl, λ e. refl)
sort_strings-eq-nil (s ∷ ss) = (λ e. absurd (insert_string-nonempty s (sort_strings ss) e), λ e. cc)
