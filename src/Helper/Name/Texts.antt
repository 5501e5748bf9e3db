-- ===== src/Helper/Name/Texts.antt =====
-- What cutting, trimming and joining names keeps.
use Prim.Native.Char.{Char, code}
use Prim.Native.String
use Prim.Native.String.{count}
use text.Mathlib.TextLemmas.{length-append, length-cons, length-nil, nil-append, cons-append}
use supabase_kubernetes.Go.Strings.{is_empty, trim_right}
use supabase_kubernetes.Helper.Name.{
  guard_digit, normalized, replace_dots, starts_with_digit, take_text,
}
use supabase_kubernetes.Helper.Random.Laws.{all_chars}
use supabase_kubernetes.Prelude.{
  Bool, Bool-cases, String, [], arith, concat, false, if◌then◌else◌, inl, inr, leb, ltb, refl, suc,
  true, zero, ℕ, ◌&&◌, ◌+◌, ◌==◌, ◌||◌, ◌∷◌, ◌≡◌, ◌≤◌,
}

pub count-take_text : (n : ℕ) (s : String) → count (take_text n s) ≤ n
unfolding take_text
count-take_text zero s = omega (arith, length-nil)
count-take_text (suc n) String.[] = omega (arith, length-nil)
count-take_text (suc n) (String.◌∷◌ c s) =
    omega (arith, length-cons c (take_text n s), count-take_text n s)

pub count-trim_dashes : (s : String) → count (trim_right b'-' s) ≤ count s
unfolding trim_right
count-trim_dashes String.[] = omega arith
count-trim_dashes (String.◌∷◌ c s) =
    ground
      (arith, length-nil, length-cons c s, length-cons c (trim_right b'-' s), count-trim_dashes s)

-- the head of a hashed name
abbrev pub head_of : String → String
head_of long = trim_right b'-' (if ltb 46 (count long) then take_text 46 long else long)

pub fits_lem : (long : String) → ltb 46 (count long) ≡ false → count long ≤ 46
fits_lem long h = ground arith

pub count-head_of : (long : String) → count (head_of long) ≤ 46
count-head_of long = elim (Bool-cases (ltb 46 (count long))) [
  | inl over ↦
      rw over (omega (arith, count-trim_dashes (take_text 46 long), count-take_text 46 long))
  | inr fits ↦ rw fits (omega (arith, fits_lem long fits, count-trim_dashes long))
]

pub count-hashed :
    (head tail : String) → count (concat (head ∷ "-" ∷ tail ∷ [])) ≡ count head + 1 + count tail
count-hashed head tail = omega (
  arith,
  length-append head (concat ("-" ∷ tail ∷ [])),
  length-append "-" (concat (tail ∷ [])),
  length-append tail "",
  length-nil,
  length-cons "-" "",
)

-- The alphabets of names: RFC 1123 for subdomains, RFC 1035 for labels.
abbrev pub is_lower : Char → Bool
is_lower c = leb b'a' (code c) && leb (code c) b'z'

abbrev pub is_lower_or_digit : Char → Bool
is_lower_or_digit c = is_lower c || (leb b'0' (code c) && leb (code c) b'9')

abbrev pub is_label_char : Char → Bool
is_label_char c = is_lower_or_digit c || (code c == b'-')

abbrev pub is_subdomain_char : Char → Bool
is_subdomain_char c = is_label_char c || (code c == b'.')

abbrev pub starts : (Char → Bool) → String → Bool
starts p String.[] = false
starts p (String.◌∷◌ c s) = p c

abbrev pub ends : (Char → Bool) → String → Bool
ends p String.[] = false
ends p (String.◌∷◌ c s) = (is_empty s && p c) || ends p s

module _ (p : Char → Bool) where
  pub all_chars-append :
      (s t : String)
      → all_chars p s ≡ true
      → all_chars p t ≡ true
      → all_chars p (String.◌++◌ s t) ≡ true
  all_chars-append String.[] t h k = rw nil-append k
  all_chars-append (String.◌∷◌ c s) t h k =
      rw cons-append (let rest = all_chars-append s t (ground arith) k in ground arith)

  pub all_chars-take :
      (n : ℕ) (s : String) → all_chars p s ≡ true → all_chars p (take_text n s) ≡ true
  unfolding take_text
  all_chars-take zero s h = refl
  all_chars-take (suc n) String.[] h = refl
  all_chars-take (suc n) (String.◌∷◌ c s) h =
      let rest = all_chars-take n s (ground arith) in ground arith

  pub all_chars-trim : (s : String) → all_chars p s ≡ true → all_chars p (trim_right b'-' s) ≡ true
  unfolding trim_right
  all_chars-trim String.[] h = refl
  all_chars-trim (String.◌∷◌ c s) h =
      let rest = all_chars-trim s (ground arith) in
      elim (Bool-cases (code c == b'-' && is_empty (trim_right b'-' s))) [
        | inl cut ↦ rw cut refl
        | inr kept ↦ rw kept (ground arith)
      ]

  pub starts-append : (s t : String) → starts p s ≡ true → starts p (String.◌++◌ s t) ≡ true
  starts-append String.[] t h = cc
  starts-append (String.◌∷◌ c s) t h = rw cons-append h

  pub ends-append : (s t : String) → ends p t ≡ true → ends p (String.◌++◌ s t) ≡ true
  ends-append String.[] t h = rw nil-append h
  ends-append (String.◌∷◌ c s) t h = rw cons-append (let rest = ends-append s t h in ground arith)

  pub ends-all : (s : String) → is_empty s ≡ false → all_chars p s ≡ true → ends p s ≡ true
  ends-all String.[] full h = cc
  ends-all (String.◌∷◌ c s) full h = elim (Bool-cases (is_empty s)) [
    | inl last ↦ ground arith
    | inr more ↦ let rest = ends-all s more (ground arith) in ground arith
  ]

pub starts-take :
    (n : ℕ) (s : String) → starts is_lower s ≡ true → starts is_lower (take_text (suc n) s) ≡ true
unfolding take_text
starts-take n String.[] h = h
starts-take n (String.◌∷◌ c s) h = h

-- A letter at the start is no dash, and is never trimmed.
pub starts-trim :
    (s : String) → starts is_lower s ≡ true → starts is_lower (trim_right b'-' s) ≡ true
unfolding trim_right
starts-trim String.[] h = h
starts-trim (String.◌∷◌ c s) h = let letter : (code c == b'-') ≡ false = ground arith in rw letter h

all_chars-replace_dots :
    (s : String)
    → all_chars is_subdomain_char s ≡ true
    → all_chars is_label_char (replace_dots s) ≡ true
unfolding replace_dots
all_chars-replace_dots String.[] h = refl
all_chars-replace_dots (String.◌∷◌ c s) h =
    let rest = all_chars-replace_dots s (ground arith) in
    elim (Bool-cases (code c == b'.')) [
      | inl dot ↦ rw dot rest
      | inr other ↦ rw other (ground arith)
    ]

starts-replace_dots :
    (s : String)
    → starts is_lower_or_digit s ≡ true
    → starts is_lower_or_digit (replace_dots s) ≡ true
unfolding replace_dots
starts-replace_dots String.[] h = h
starts-replace_dots (String.◌∷◌ c s) h =
    let other : (code c == b'.') ≡ false = ground arith in rw other h

pub all_chars-normalized :
    (s : String)
    → all_chars is_subdomain_char s ≡ true
    → all_chars is_label_char (normalized s) ≡ true
unfolding normalized guard_digit
all_chars-normalized s h = elim (Bool-cases (starts_with_digit (replace_dots s))) [
  | inl digit ↦
      rw digit
        (all_chars-append is_label_char "c-" (replace_dots s) refl (all_chars-replace_dots s h))
  | inr letter ↦ rw letter (all_chars-replace_dots s h)
]

starts-no_digit :
    (s : String)
    → starts is_lower_or_digit s ≡ true
    → starts_with_digit s ≡ false
    → starts is_lower s ≡ true
unfolding starts_with_digit
starts-no_digit String.[] h k = h
starts-no_digit (String.◌∷◌ c s) h k = ground arith

pub starts-normalized :
    (s : String) → starts is_lower_or_digit s ≡ true → starts is_lower (normalized s) ≡ true
unfolding normalized guard_digit
starts-normalized s h = elim (Bool-cases (starts_with_digit (replace_dots s))) [
  | inl digit ↦ rw digit (starts-append is_lower "c-" (replace_dots s) refl)
  | inr letter ↦ rw letter (starts-no_digit (replace_dots s) (starts-replace_dots s h) letter)
]
