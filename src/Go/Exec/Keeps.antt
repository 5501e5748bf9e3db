-- ===== src/Go/Exec/Keeps.antt =====
-- Predicates on the cluster that a call keeps, one rule for each way to build a call.
use supabase_kubernetes.Go.Exec.{Exec, attempt, branch, lift, pure, raise, reads}
use supabase_kubernetes.Go.Outcome.{Error, Outcome, err, ok, panic}
use supabase_kubernetes.Prelude.{Bool, false, if◌then◌else◌, refl, true, ◌≡◌}

-- `m` keeps `P`, whether it returns, fails or panics.
pub record Keeps {W A : Type 0} (P : W → Type 0) (m : Exec W A) : Type 0 where
  pub at : (w : W) → P w → P (m w).1

module _ {W A : Type 0} {P : W → Type 0} where
  pub Keeps-pure : (a : A) → Keeps P (pure a)
  Keeps-pure a = record { at = λ w h. h }

  pub Keeps-raise : (e : Error) → Keeps P (raise {A = A} e)
  Keeps-raise e = record { at = λ w h. h }

  pub Keeps-lift : (r : Outcome A) → Keeps P (lift r)
  Keeps-lift r = record { at = λ w h. h }

  pub Keeps-reads : (f : W → Outcome A) → Keeps P (reads f)
  Keeps-reads f = record { at = λ w h. h }

  pub Keeps-if : (b : Bool) (m n : Exec W A) → Keeps P m → Keeps P n → Keeps P (if b then m else n)
  Keeps-if true m n km kn = km
  Keeps-if false m n km kn = kn

module _ {W A B : Type 0} {P : W → Type 0} where
  branch-Keeps :
      (r : Outcome A) (h : Error → Exec W B) (k : A → Exec W B)
      → ((e : Error) → Keeps P (h e))
      → ((a : A) → Keeps P (k a))
      → Keeps P (branch r h k)
  branch-Keeps (ok a) h k kh kk = kk a
  branch-Keeps (err e) h k kh kk = kh e
  branch-Keeps panic h k kh kk = record { at = λ w p. p }

  pub Keeps-attempt :
      (m : Exec W A) (h : Error → Exec W B) (k : A → Exec W B)
      → Keeps P m
      → ((e : Error) → Keeps P (h e))
      → ((a : A) → Keeps P (k a))
      → Keeps P (attempt m h k)
  Keeps-attempt m h k km kh kk = record {
    at = λ w p. let (r, w') = m w in (branch-Keeps r h k kh kk).at w' (km.at w p);
  }

  -- After a read, the rest of the call may use what was read, in a cluster where `P` holds.
  pub Keeps-read :
      (f : W → Outcome A) (h : Error → Exec W B) (k : A → Exec W B)
      → ((e : Error) → Keeps P (h e))
      → ((w : W) (a : A) → P w → f w ≡ ok a → P (k a w).1)
      → Keeps P (attempt (reads f) h k)
  Keeps-read f h k kh kk = record { at = λ w p. by_read w p (f w) refl }
    where
      by_read : (w : W) → P w → (read : Outcome A) → f w ≡ read → P (branch read h k w).1
      by_read w p (ok a) e = kk w a p e
      by_read w p (err e') e = (kh e').at w p
      by_read w p panic e = p
