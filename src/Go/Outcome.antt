-- ===== src/Go/Outcome.antt =====
-- The result of a Go call that returns `(T, error)` or panics.
use supabase_kubernetes.Prelude.{String, [], ◌∷◌, concat}

-- What `apierrors.IsNotFound` and `apierrors.IsConflict` tell of an error.
pub data Reason : Type 0 where
  not_found conflict other : Reason

pub record Error : Type 0 where
  pub reason : Reason
  pub text : String

-- `fmt.Errorf("prefix: %w", err)`: the wrapped error keeps what `errors.As` finds in it.
abbrev pub wrap : String → Error → Error
wrap prefix e = record e { text = concat (prefix ∷ ": " ∷ e.text ∷ []) }

-- `fmt.Errorf` with no wrapped error.
abbrev pub errorf : String → Error
errorf s = record { reason = other; text = s }

pub data Outcome {ℓ} (A : Type ℓ) : Type ℓ where
  ok : A → Outcome A
  err : Error → Outcome A
  panic : Outcome A
