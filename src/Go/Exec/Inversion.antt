-- ===== src/Go/Exec/Inversion.antt =====
-- What a call that has returned did before.
use supabase_kubernetes.Go.Exec.{Exec, attempt, branch, lift, raise, ◌>>=◌}
use supabase_kubernetes.Go.Outcome.{Error, Outcome, err, ok, panic}
use supabase_kubernetes.Prelude.{ap, refl, ◌≡◌}

pub ok_pair :
    {W A : Type 0} {a b : A} {w w' : W}
    → ◌≡◌ {A = Outcome A × W} (ok a, w) (ok b, w')
    → (a ≡ b) × (w ≡ w')
ok_pair {W} {A} h = (cc, cc)

module _ {W A B : Type 0} where
  branch-eq-ok :
      (r : Outcome A) (k : A → Exec W B) (w₁ : W) {b : B} {w' : W}
      → branch r raise k w₁ ≡ (ok b, w')
      → (a : A) × (r ≡ ok a) × (k a w₁ ≡ (ok b, w'))
  branch-eq-ok (ok a) k w₁ h = (a, refl, h)
  branch-eq-ok (err e) k w₁ h = cc
  branch-eq-ok panic k w₁ h = cc

  -- A chain that returns has two parts that return.
  pub >>=-eq-ok :
      (m : Exec W A) (k : A → Exec W B) (w : W) {b : B} {w' : W}
      → (m >>= k) w ≡ (ok b, w')
      → (a : A) × (w₁ : W) × (m w ≡ (ok a, w₁)) × (k a w₁ ≡ (ok b, w'))
  >>=-eq-ok m k w h =
      let (a, e, t) = branch-eq-ok (m w).0 k (m w).1 h in (a, (m w).1, λ i. (e i, (m w).1), t)

  -- The same, where the first part touches no state.
  pub lift-eq-ok :
      (r : Outcome A) (k : A → Exec W B) (w : W) {b : B} {w' : W}
      → (lift r >>= k) w ≡ (ok b, w')
      → (a : A) × (r ≡ ok a) × (k a w ≡ (ok b, w'))
  lift-eq-ok r k w h = branch-eq-ok r k w h

  -- A call that returns goes on with its value.
  pub attempt_ok :
      (m : Exec W A) (h : Error → Exec W B) (k : A → Exec W B) {w w₁ : W} {a : A}
      → m w ≡ (ok a, w₁)
      → attempt m h k w ≡ k a w₁
  attempt_ok m h k e = ap (λ (q : Outcome A × W). branch q.0 h k q.1) e

-- A call that never returns the value `b`.
pub record Avoids {W A : Type 0} (b : A) (m : Exec W A) : Type 0 where
  pub at : (w w' : W) → ¬ (m w ≡ (ok b, w'))

pub Avoids-raise : {W B : Type 0} (e : Error) (b : B) → Avoids {W = W} b (raise e)
Avoids-raise e b = record { at = λ w w' h. cc }

module _ {W A B : Type 0} where
  branch_on-eq-ok :
      (r : Outcome A) (h : Error → Exec W B) (k : A → Exec W B) (w₁ : W) {b : B} {w' : W}
      → ((e : Error) → Avoids b (h e))
      → branch r h k w₁ ≡ (ok b, w')
      → (a : A) × (r ≡ ok a) × (k a w₁ ≡ (ok b, w'))
  branch_on-eq-ok (ok a) h k w₁ n run = (a, refl, run)
  branch_on-eq-ok (err e) h k w₁ {w' = w'} n run = absurd ((n e).at w₁ w' run)
  branch_on-eq-ok panic h k w₁ n run = cc

  -- A call that returns a value which its handler never returns has gone on.
  pub attempt-eq-ok :
      (m : Exec W A) (h : Error → Exec W B) (k : A → Exec W B) (w : W) {b : B} {w' : W}
      → ((e : Error) → Avoids b (h e))
      → attempt m h k w ≡ (ok b, w')
      → (a : A) × (w₁ : W) × (m w ≡ (ok a, w₁)) × (k a w₁ ≡ (ok b, w'))
  attempt-eq-ok m h k w n run =
      let (a, e, t) = branch_on-eq-ok (m w).0 h k (m w).1 n run in
      (a, (m w).1, λ i. (e i, (m w).1), t)

  -- The same, where the first part only reads.
  pub read-eq-ok :
      (f : W → Outcome A) (h : Error → Exec W B) (k : A → Exec W B) (w : W) {b : B} {w' : W}
      → ((e : Error) → Avoids b (h e))
      → attempt (λ v. (f v, v)) h k w ≡ (ok b, w')
      → (a : A) × (f w ≡ ok a) × (k a w ≡ (ok b, w'))
  read-eq-ok f h k w n run = branch_on-eq-ok (f w) h k w n run

  branch-Avoids :
      (r : Outcome A) (h : Error → Exec W B) (k : A → Exec W B) (w₁ w' : W) {b : B}
      → ((e : Error) → Avoids b (h e))
      → ((a : A) → Avoids b (k a))
      → ¬ (branch r h k w₁ ≡ (ok b, w'))
  branch-Avoids (ok a) h k w₁ w' n t run = (t a).at w₁ w' run
  branch-Avoids (err e) h k w₁ w' n t run = (n e).at w₁ w' run
  branch-Avoids panic h k w₁ w' n t run = cc

  pub Avoids-attempt :
      (m : Exec W A) (h : Error → Exec W B) (k : A → Exec W B) {b : B}
      → ((e : Error) → Avoids b (h e))
      → ((a : A) → Avoids b (k a))
      → Avoids b (attempt m h k)
  Avoids-attempt m h k n t = record {
    at = λ w w' run. branch-Avoids (m w).0 h k (m w).1 w' n t run;
  }
