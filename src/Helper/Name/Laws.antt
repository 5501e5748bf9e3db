-- ===== src/Helper/Name/Laws.antt =====
-- Names that ResourceName gives, as labels, and their originals.
use Prim.Native.String.{count}
use text.Mathlib.TextLemmas.{append_inj, append_cancel_left, append-nil}
use supabase_kubernetes.Defaults.Assets.{Digest}
use supabase_kubernetes.Go.Strings.{is_empty}
use supabase_kubernetes.Helper.Name.{
  child_name, hashed_name, is_plain, normalized, resource_name, short_digest, take_text,
}
use supabase_kubernetes.Helper.Name.Texts.{
  all_chars-append, all_chars-normalized, all_chars-take, all_chars-trim, count-hashed,
  count-head_of, count-take_text, ends, ends-all, ends-append, head_of, is_label_char, is_lower,
  is_lower_or_digit, is_subdomain_char, starts, starts-append, starts-normalized, starts-take,
  starts-trim,
}
use supabase_kubernetes.Helper.Random.Laws.{all_chars}
use supabase_kubernetes.Prelude.{
  Bool-cases, String, [], ap, arith, concat, eq_iff, false, inl, inr, ltb, refl, sym, true, ◌∙◌,
  ◌∷◌, ◌≡◌, ◌≤◌, ◌⊎◌,
}

count-resource_name :
    (digest : Digest) (name suffix : String) → count (resource_name digest name suffix) ≤ 63
unfolding resource_name hashed_name is_plain short_digest
count-resource_name digest name suffix =
    let original = child_name name suffix in
    elim (Bool-cases (is_plain original)) [
      | inl plain ↦ rw plain (ground arith)
      | inr long ↦ rw long (
          omega (
            arith,
            count-hashed (head_of (normalized original)) (take_text 16 (digest original)),
            count-head_of (normalized original),
            count-take_text 16 (digest original),
          ))
    ]

-- A DNS label as RFC 1035 has it, which the name of a Service must be: at most 63 lower-case
-- letters, digits and dashes, a letter first and no dash last.
pub record IsLabel (s : String) : Type 0 where
  pub short : count s ≤ 63
  pub chars : all_chars is_label_char s ≡ true
  pub first : starts is_lower s ≡ true
  pub last : ends is_lower_or_digit s ≡ true

-- The name of an object: the start and the alphabet of a DNS subdomain.
pub record IsObjectName (s : String) : Type 0 where
  pub chars : all_chars is_subdomain_char s ≡ true
  pub first : starts is_lower_or_digit s ≡ true

-- What the operator appends: the alphabet and the end of a DNS label.
pub record IsSuffix (s : String) : Type 0 where
  pub chars : all_chars is_label_char s ≡ true
  pub last : ends is_lower_or_digit s ≡ true

-- A digest in hexadecimal digits, which is not empty.
pub record IsHex (s : String) : Type 0 where
  pub chars : all_chars is_lower_or_digit s ≡ true
  pub full : is_empty s ≡ false

wider : (s : String) → all_chars is_label_char s ≡ true → all_chars is_subdomain_char s ≡ true
wider String.[] h = refl
wider (String.◌∷◌ c s) h = let rest = wider s (ground arith) in ground arith

hex_chars : (s : String) → all_chars is_lower_or_digit s ≡ true → all_chars is_label_char s ≡ true
hex_chars String.[] h = refl
hex_chars (String.◌∷◌ c s) h = let rest = hex_chars s (ground arith) in ground arith

module _ (name suffix : String) (named : IsObjectName name) (ended : IsSuffix suffix) where
  child_name-chars : all_chars is_subdomain_char (child_name name suffix) ≡ true
  unfolding child_name
  child_name-chars =
      all_chars-append is_subdomain_char name (concat ("-" ∷ suffix ∷ [])) named.chars (
        all_chars-append is_subdomain_char "-" (concat (suffix ∷ [])) refl
          (all_chars-append is_subdomain_char suffix "" (wider suffix ended.chars) refl))

  child_name-starts : starts is_lower_or_digit (child_name name suffix) ≡ true
  unfolding child_name
  child_name-starts = starts-append is_lower_or_digit name (concat ("-" ∷ suffix ∷ [])) named.first

  child_name-ends : ends is_lower_or_digit (child_name name suffix) ≡ true
  unfolding child_name
  child_name-ends =
      ends-append is_lower_or_digit name (concat ("-" ∷ suffix ∷ [])) (
        ends-append is_lower_or_digit "-" (concat (suffix ∷ []))
          (rw (append-nil suffix) ended.last))

head_of-starts : (s : String) → starts is_lower s ≡ true → starts is_lower (head_of s) ≡ true
head_of-starts s h = elim (Bool-cases (ltb 46 (count s))) [
  | inl over ↦ rw over (starts-trim (take_text 46 s) (starts-take 45 s h))
  | inr fits ↦ rw fits (starts-trim s h)
]

head_of-chars :
    (s : String) → all_chars is_label_char s ≡ true → all_chars is_label_char (head_of s) ≡ true
head_of-chars s h = elim (Bool-cases (ltb 46 (count s))) [
  | inl over ↦
      rw over (all_chars-trim is_label_char (take_text 46 s) (all_chars-take is_label_char 46 s h))
  | inr fits ↦ rw fits (all_chars-trim is_label_char s h)
]

short_digest-IsHex :
    (digest : Digest) (original : String)
    → IsHex (digest original)
    → IsHex (short_digest digest original)
unfolding short_digest
short_digest-IsHex digest original h = record {
  chars = all_chars-take is_lower_or_digit 16 (digest original) h.chars;
  full = full_take (digest original) h.full;
}
  where
    full_take : (s : String) → is_empty s ≡ false → is_empty (take_text 16 s) ≡ false
    full_take String.[] e = e
    full_take (String.◌∷◌ c s) e = refl

hashed-IsLabel :
    (head tail : String)
    → count (concat (head ∷ "-" ∷ tail ∷ [])) ≤ 63
    → all_chars is_label_char head ≡ true
    → starts is_lower head ≡ true
    → IsHex tail
    → IsLabel (concat (head ∷ "-" ∷ tail ∷ []))
hashed-IsLabel head tail short chars first hex = record {
  short = short;
  chars = all_chars-append is_label_char head (concat ("-" ∷ tail ∷ [])) chars (
      all_chars-append is_label_char "-" (concat (tail ∷ [])) refl
        (all_chars-append is_label_char tail "" (hex_chars tail hex.chars) refl));
  first = starts-append is_lower head (concat ("-" ∷ tail ∷ [])) first;
  last = ends-append is_lower_or_digit head (concat ("-" ∷ tail ∷ [])) (
      ends-append is_lower_or_digit "-" (concat (tail ∷ []))
        (rw (append-nil tail) (ends-all is_lower_or_digit tail hex.full hex.chars)));
}

-- A name that serves as it is is its own normal form.
plain_name : (s : String) → is_plain s ≡ true → normalized s ≡ s
unfolding is_plain
plain_name s h = ground (arith, eq_iff (normalized s) s)

-- The name of a child object is a DNS label, so that it can name a Service and be the value of a
-- label: at most 63 lower-case letters, digits and dashes, with a letter first and no dash last,
-- whatever the length of its owner's name. The name of the owner has the alphabet and the start of a
-- DNS subdomain, the suffix the alphabet and the end of a label, and the digest is a text of
-- hexadecimal digits that is not empty.
pub resource_name-IsLabel :
    (digest : Digest) (name suffix : String)
    → IsObjectName name
    → IsSuffix suffix
    → IsHex (digest (child_name name suffix))
    → IsLabel (resource_name digest name suffix)
unfolding resource_name hashed_name
resource_name-IsLabel digest name suffix named ended hex =
    let original = child_name name suffix in
    let short = count-resource_name digest name suffix in
    let chars = all_chars-normalized original (child_name-chars name suffix named ended) in
    let first = starts-normalized original (child_name-starts name suffix named ended) in
    elim (Bool-cases (is_plain original)) [
      | inl plain ↦ record {
        short = short;
        chars = rw plain chars;
        first = rw plain first;
        last = rw (plain, plain_name original plain) (child_name-ends name suffix named ended);
      }
      | inr long ↦ rw long (
          hashed-IsLabel (head_of (normalized original)) (short_digest digest original)
            (rw long at short) (head_of-chars (normalized original) chars)
            (head_of-starts (normalized original) first) (short_digest-IsHex digest original hex))
    ]

-- Two hashed names that are equal have one short digest, where all digests are of one length.
hashed_name-inj :
    (digest : Digest) (a b : String)
    → count (short_digest digest a) ≡ count (short_digest digest b)
    → hashed_name digest a ≡ hashed_name digest b
    → short_digest digest a ≡ short_digest digest b
unfolding hashed_name
hashed_name-inj digest a b same e =
    let tail_a = concat ("-" ∷ short_digest digest a ∷ []) in
    let tail_b = concat ("-" ∷ short_digest digest b ∷ []) in
    let sizes : count (concat (head_of (normalized a) ∷ "-" ∷ short_digest digest a ∷ []))
        ≡ count (concat (head_of (normalized b) ∷ "-" ∷ short_digest digest b ∷ [])) =
      ap count e in
    let heads : count (head_of (normalized a)) ≡ count (head_of (normalized b)) = omega (
      arith,
      count-hashed (head_of (normalized a)) (short_digest digest a),
      count-hashed (head_of (normalized b)) (short_digest digest b),
    ) in
    let tails =
      append_inj {s₁ = head_of (normalized a)} {s₂ = head_of (normalized b)} {t₁ = tail_a}
        {t₂ = tail_b} e heads in
    let ends =
      append_cancel_left "-" (concat (short_digest digest a ∷ []))
        (concat (short_digest digest b ∷ [])) tails.1 in
    cc (ends, append-nil (short_digest digest a), append-nil (short_digest digest b))

-- Two child objects of one name, where both names serve as they are or both are hashed, have one
-- original name, or their originals have one short digest. The short digests are of one length.
pub resource_name-inj :
    (digest : Digest) (name suffix name' suffix' : String)
    → count (short_digest digest (child_name name suffix))
      ≡ count (short_digest digest (child_name name' suffix'))
    → is_plain (child_name name suffix) ≡ is_plain (child_name name' suffix')
    → resource_name digest name suffix ≡ resource_name digest name' suffix'
    → (child_name name suffix ≡ child_name name' suffix')
      ⊎ (short_digest digest (child_name name suffix)
          ≡ short_digest digest (child_name name' suffix'))
unfolding resource_name
resource_name-inj digest name suffix name' suffix' same alike e =
    let a = child_name name suffix in
    let b = child_name name' suffix' in
    elim (Bool-cases (is_plain a)) [
      | inl plain ↦
          let plain' : is_plain b ≡ true = sym alike ∙ plain in
          inl (cc (plain_name a plain, plain_name b plain', rw (plain, plain') at e))
      | inr long ↦
          let long' : is_plain b ≡ false = sym alike ∙ long in
          inr (hashed_name-inj digest a b same (rw (long, long') at e))
    ]
