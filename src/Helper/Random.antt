-- ===== src/Helper/Random.antt =====
-- internal/helper/random.go: random texts.
pub mod Laws
use Prim.Native.Char.{Char}
use Prim.Native.String
use supabase_kubernetes.Go.Exec.{Exec, attempt, lift, pure, raise}
use supabase_kubernetes.Go.Outcome.{panic, wrap}
use supabase_kubernetes.Go.Strconv.{digit}
use supabase_kubernetes.Prelude.{
  List, Option, String, [], concat, if◌then◌else◌, length, none, some, suc, zero, ℕ, ◌%◌, ◌/◌, ◌==◌,
  ◌∷◌,
}

-- crypto/rand, whose state is part of `W`
pub record Random (W : Type 0) : Type 0 where
  -- `b := make([]byte, n); rand.Read(b)`
  pub read : ℕ → Exec W (List ℕ)
  -- `rand.Int(rand.Reader, big.NewInt(n))`
  pub int : ℕ → Exec W ℕ

-- one digit of hex.EncodeToString
abbrev hex_digit : ℕ → String
hex_digit d =
    if d == 10
    then "a"
    else if d == 11
    then "b"
    else if d == 12
    then "c"
    else if d == 13
    then "d"
    else if d == 14
    then "e"
    else if d == 15
    then "f"
    else digit d

-- hex.EncodeToString
unfoldable pub encode_to_string : List ℕ → String
encode_to_string [] = ""
encode_to_string (b ∷ bytes) =
    concat (hex_digit (b / 16) ∷ hex_digit (b % 16) ∷ encode_to_string bytes ∷ [])

unfoldable pub generate_random_hex : {W : Type 0} → Random W → ℕ → Exec W String
generate_random_hex rand num_bytes =
    attempt (rand.read num_bytes) (λ e. raise (wrap "reading random bytes" e))
      (λ b. pure (encode_to_string b))

abbrev pub alphanumeric_charset : String
alphanumeric_charset = "abcdefghijklmnopqrstuvwxyzABCDEFGHIJKLMNOPQRSTUVWXYZ0123456789"

-- `s[i]`, which panics out of range
unfoldable pub char_at? : String → ℕ → Option Char
char_at? String.[] i = none
char_at? (String.◌∷◌ c s) zero = some c
char_at? (String.◌∷◌ c s) (suc i) = char_at? s i

-- one round of the loop, and then `next`
unfoldable pub put_char : {W : Type 0} → Option Char → Exec W String → Exec W String
put_char none next = lift panic
put_char (some c) next = attempt next raise (λ s. pure (String.◌∷◌ c s))

unfoldable pub generate_random_alphanumeric : {W : Type 0} → Random W → ℕ → Exec W String
unfolding put_char char_at?
generate_random_alphanumeric rand zero = pure ""
generate_random_alphanumeric rand (suc length) =
    let rest = generate_random_alphanumeric rand length in
    attempt (rand.int 62) (λ e. raise (wrap "generating random index" e))
      (λ i. put_char (char_at? alphanumeric_charset i) rest)
