-- ===== src/Go/Exec.antt =====
-- Calls that may change the cluster, and may fail or panic. `W` is the state of the cluster with
-- all that acts on it; what was written before an error stays written.
pub mod Keeps
pub mod Inversion
use supabase_kubernetes.Go.Outcome.{Error, Outcome, ok, err, panic, wrap}
use supabase_kubernetes.Prelude.{String}

abbrev pub Exec : Type 0 → Type 0 → Type 0
Exec W A = W → Outcome A × W

module _ {W A : Type 0} where
  abbrev pub pure : A → Exec W A
  pure a w = (ok a, w)

  abbrev pub raise : Error → Exec W A
  raise e w = (err e, w)

  -- A computation that touches no state.
  abbrev pub lift : Outcome A → Exec W A
  lift r w = (r, w)

  -- A read of the cluster.
  abbrev pub reads : (W → Outcome A) → Exec W A
  reads f w = (f w, w)

module _ {W A B : Type 0} where
  abbrev pub branch : Outcome A → (Error → Exec W B) → (A → Exec W B) → Exec W B
  branch (ok a) h k w = k a w
  branch (err e) h k w = h e w
  branch panic h k w = (panic, w)

  -- `x, err := m(); if err != nil { h(err) }; k(x)`; a panic unwinds.
  abbrev pub attempt : Exec W A → (Error → Exec W B) → (A → Exec W B) → Exec W B
  attempt m h k w = let (r, w') = m w in branch r h k w'

  infixl 10 ◌>>=◌ ◌>>◌
  -- `if err != nil { return err }`
  abbrev pub ◌>>=◌ : Exec W A → (A → Exec W B) → Exec W B
  m >>= k = attempt m raise k

  abbrev pub ◌>>◌ : Exec W A → Exec W B → Exec W B
  m >> k = m >>= λ _. k

  -- The error of a call that is only logged.
  abbrev pub ignoring : Exec W A → Exec W B → Exec W B
  ignoring m k = attempt m (λ _. k) (λ _. k)

module _ {W A : Type 0} where
  -- `if err := m(); err != nil { return fmt.Errorf("prefix: %w", err) }`
  abbrev pub wrapping : String → Exec W A → Exec W A
  wrapping prefix m = attempt m (λ e. raise (wrap prefix e)) pure
