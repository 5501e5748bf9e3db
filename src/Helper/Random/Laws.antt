-- ===== src/Helper/Random/Laws.antt =====
-- The passwords that GenerateRandomAlphanumeric gives.
use Prim.Native.Char.{Char, code}
use Prim.Native.String.{count}
use text.Mathlib.TextLemmas.{length-cons, length-nil}
use supabase_kubernetes.Go.Exec.{Exec, branch, pure, raise}
use supabase_kubernetes.Go.Outcome.{Error, Outcome, err, ok, panic, wrap}
use supabase_kubernetes.Helper.Random.{
  Random, alphanumeric_charset, char_at?, generate_random_alphanumeric, put_char,
}
use supabase_kubernetes.Prelude.{
  Bool, Option, String, arith, inl, inr, leb, refl, some, suc, true, zero, ℕ, ◌&&◌, ◌<◌, ◌||◌, ◌≡◌,
  ◌⊎◌,
}

-- a letter of the ASCII alphabet or a decimal digit
abbrev pub is_alphanumeric : Char → Bool
is_alphanumeric c =
    (leb b'a' (code c) && leb (code c) b'z')
    || (leb b'A' (code c) && leb (code c) b'Z')
    || (leb b'0' (code c) && leb (code c) b'9')

abbrev pub all_chars : (Char → Bool) → String → Bool
all_chars p String.[] = true
all_chars p (String.◌∷◌ c s) = p c && all_chars p s

char_at?-all :
    (p : Char → Bool) (s : String) (i : ℕ)
    → all_chars p s ≡ true
    → i < count s
    → (c : Char) × (char_at? s i ≡ some c) × (p c ≡ true)
unfolding char_at?
char_at?-all p String.[] i h lt = absurd (omega (arith, length-nil))
char_at?-all p (String.◌∷◌ c s) zero h lt = (c, refl, ground arith)
char_at?-all p (String.◌∷◌ c s) (suc i) h lt =
    char_at?-all p s i (ground arith) (omega (arith, length-cons c s))

charset_lem : all_chars is_alphanumeric alphanumeric_charset ≡ true
charset_lem = refl

-- rand.Int gives a number below a bound that is not zero, or
-- fails.
abbrev pub Draws : {W : Type 0} → Random W → Type 0
Draws {W} rand =
    (n : ℕ) (w : W)
    → 0 < n
    → ((i : ℕ) × ((rand.int n w).0 ≡ ok i) × (i < n)) ⊎ ((e : Error) × ((rand.int n w).0 ≡ err e))

abbrev pub IsPassword : ℕ → Outcome String → Type 0
IsPassword n (ok s) = (count s ≡ n) × (all_chars is_alphanumeric s ≡ true)
IsPassword n (err e) = Unit
IsPassword n panic = ⊥

-- The round that puts a character of the charset in front of the rest.
module _ {W : Type 0} (c : Char) (n : ℕ) (good : is_alphanumeric c ≡ true) where
  put-IsPassword :
      (r : Outcome String × W)
      → IsPassword n r.0
      → IsPassword (suc n) (branch {W = W} r.0 raise (λ s. pure (String.◌∷◌ c s)) r.1).0
  put-IsPassword (ok s, w) h = (omega (arith, length-cons c s), rw (good, h.1))
  put-IsPassword (err e, w) h = tt
  put-IsPassword (panic, w) h = h

  put_char-IsPassword :
      (o : Option Char) (next : Exec W String) (w : W)
      → o ≡ some c
      → IsPassword n (next w).0
      → IsPassword (suc n) (put_char o next w).0
  unfolding put_char
  put_char-IsPassword o next w e h = rw e (put-IsPassword (next w) h)

-- GenerateRandomAlphanumeric never panics, and a text that it gives has the length that was asked
-- for and consists of letters and digits. rand.Int gives a number below a bound that is not zero, or
-- fails.
pub generate_random_alphanumeric-IsPassword :
    {W : Type 0} (rand : Random W)
    → Draws rand
    → (n : ℕ) (w : W) → IsPassword n (generate_random_alphanumeric rand n w).0
unfolding generate_random_alphanumeric
generate_random_alphanumeric-IsPassword rand draws zero w = (length-nil, refl)
generate_random_alphanumeric-IsPassword {W} rand draws (suc n) w =
    drawn (rand.int 62 w) (generate_random_alphanumeric-IsPassword rand draws n)
      (draws 62 w (omega arith))
  where
    drawn :
        (r : Outcome ℕ × W)
        → ((w' : W) → IsPassword n (generate_random_alphanumeric rand n w').0)
        → ((i : ℕ) × (r.0 ≡ ok i) × (i < 62)) ⊎ ((e : Error) × (r.0 ≡ err e))
        → IsPassword
            (suc n)
            (branch {W = W} r.0
              (λ e. raise (wrap "generating random index" e))
              (λ i.
                put_char (char_at? alphanumeric_charset i) (generate_random_alphanumeric rand n))
              r.1).0
    drawn (r, w') rest (inl (i, e, below)) =
        let (c, found, good) =
          char_at?-all is_alphanumeric alphanumeric_charset i charset_lem below in
        rw e (
          put_char-IsPassword c n good (char_at? alphanumeric_charset i)
            (generate_random_alphanumeric rand n) w' found (rest w'))
    drawn (r, w') rest (inr (e, failed)) = rw failed tt
