-- ===== src/Go/Pure.antt =====
-- Chains of calls that may fail and touch no cluster: `if err != nil { return err }`.
use supabase_kubernetes.Go.Outcome.{Outcome, err, ok, panic, wrap}
use supabase_kubernetes.Prelude.{String, refl, ◌≡◌}

infixl 5 ◌>>=◌
abbrev pub ◌>>=◌ : {A B : Type 0} → Outcome A → (A → Outcome B) → Outcome B
ok a >>= f = f a
err e >>= f = err e
panic >>= f = panic

-- `if err != nil { return fmt.Errorf("prefix: %w", err) }`
abbrev pub wrapped : {A : Type 0} → String → Outcome A → Outcome A
wrapped prefix (ok a) = ok a
wrapped prefix (err e) = err (wrap prefix e)
wrapped prefix panic = panic

-- A chain that returns has two parts that return.
pub bind-eq-ok :
    {A B : Type 0} (m : Outcome A) (f : A → Outcome B) {b : B}
    → (m >>= f) ≡ ok b
    → (a : A) × (m ≡ ok a) × (f a ≡ ok b)
bind-eq-ok (ok a) f h = (a, refl, h)
bind-eq-ok (err e) f h = cc
bind-eq-ok panic f h = cc
