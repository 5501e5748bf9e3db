-- ===== src/Go/Strconv.antt =====
-- strconv.Itoa on numbers that are not negative.
use supabase_kubernetes.Prelude.{
  String, [], concat, if◌then◌else◌, ltb, refl, suc, zero, ℕ, ◌%◌, ◌/◌, ◌==◌, ◌∷◌, ◌≡◌,
}

-- one decimal digit
abbrev pub digit : ℕ → String
digit d =
    if d == 0
    then "0"
    else if d == 1
    then "1"
    else if d == 2
    then "2"
    else if d == 3
    then "3"
    else if d == 4
    then "4"
    else if d == 5
    then "5"
    else if d == 6
    then "6"
    else if d == 7
    then "7"
    else if d == 8
    then "8"
    else "9"

digits : ℕ → ℕ → String
digits zero n = ""
digits (suc fuel) n =
    let rest = digits fuel (n / 10) in
    if ltb n 10 then digit n else concat (rest ∷ digit (n % 10) ∷ [])

-- Twenty digits hold every number below 2 ^ 64.
unfoldable pub itoa : ℕ → String
unfolding digits
itoa n = digits 20 n

itoa_5432 : itoa 5432 ≡ "5432"
unfolding itoa
itoa_5432 = refl
