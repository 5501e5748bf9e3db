-- ===== src/Reconciler/Status/Laws.antt =====
-- What the conditions say after they are set, and what an update of a status writes.
use mathlib.Core.Path.{subst}
use supabase_kubernetes.Go.Exec.{raise}
use supabase_kubernetes.Go.Exec.Inversion.{lift-eq-ok, ok_pair}
use supabase_kubernetes.Go.Exec.Keeps.{
  Keeps, Keeps-attempt, Keeps-if, Keeps-pure, Keeps-raise, Keeps-reads,
}
use supabase_kubernetes.Go.Outcome.{Outcome, ok}
use supabase_kubernetes.Kube.Client.{Client, Keeps-retry, Machinery, Retried, final, retry_after}
use supabase_kubernetes.Kube.Condition.{Conditioned, Conditions}
use supabase_kubernetes.Prelude.{
  Bool, Bool-cases, String, ap, false, inl, inr, refl, true, ◌∙◌, ◌≡◌, ◌≢◌,
}
use supabase_kubernetes.Reconciler.Status.{
  condition_type_ready, set_not_ready, set_ready, update_status, update_status_once,
}

module _ {T : Type 0} (d : Conditioned T) (cs : Conditions) where
  abbrev pub is_ready : T → Bool
  is_ready t = cs.is_status_condition_true (d.conditions t) condition_type_ready

  -- SetReady makes the Ready condition true, and leaves every other condition as it was.
  pub set_ready_lem :
      (t : T) (reason message : String)
      → (is_ready (set_ready d cs t reason message) ≡ true)
        × ((type : String)
            → condition_type_ready ≢ type
            → cs.is_status_condition_true (d.conditions (set_ready d cs t reason message)) type
              ≡ cs.is_status_condition_true (d.conditions t) type)
  unfolding set_ready
  set_ready_lem t reason message = (
    ap (λ q. cs.is_status_condition_true q condition_type_ready) (d.conditions-with_conditions _ t)
        ∙ cs.set_true (d.conditions t) _ refl,
    λ type ne.
        ap (λ q. cs.is_status_condition_true q type) (d.conditions-with_conditions _ t)
        ∙ cs.set_other (d.conditions t) _ type ne,
  )

  -- SetNotReady makes the Ready condition not true, and leaves every other condition as it was.
  pub set_not_ready_lem :
      (t : T) (reason message : String)
      → (is_ready (set_not_ready d cs t reason message) ≡ false)
        × ((type : String)
            → condition_type_ready ≢ type
            → cs.is_status_condition_true (d.conditions (set_not_ready d cs t reason message)) type
              ≡ cs.is_status_condition_true (d.conditions t) type)
  unfolding set_not_ready
  set_not_ready_lem t reason message = (
    ap (λ q. cs.is_status_condition_true q condition_type_ready) (d.conditions-with_conditions _ t)
        ∙ cs.set_not_true (d.conditions t) _ (λ e. cc),
    λ type ne.
        ap (λ q. cs.is_status_condition_true q type) (d.conditions-with_conditions _ t)
        ∙ cs.set_other (d.conditions t) _ type ne,
  )

module _ {W T : Type 0} (d : Conditioned T) (m : Machinery W) (c : Client W T)
    (same : T → T → Bool) where
  -- How a call of UpdateStatus that returns without error has ended, in the cluster `w'`: at some
  -- moment `w₁` the latest object had the status already, or was written with it.
  pub data StatusKept (obj : T) (w' : W) : Type 0 where
    had_status :
        (latest : T)
        → c.get (d.meta obj).namespace (d.meta obj).name w' ≡ ok latest
        → same obj latest ≡ true
        → StatusKept obj w'
    wrote_status :
        (latest : T) (w₁ : W)
        → c.get (d.meta obj).namespace (d.meta obj).name w₁ ≡ ok latest
        → same obj latest ≡ false
        → c.update_status (d.copy_status obj latest) w₁ ≡ (ok tt, w')
        → StatusKept obj w'

  update_status_once_sound :
      (obj : T) (w w' : W) → update_status_once d m c same obj w ≡ (ok tt, w') → StatusKept obj w'
  unfolding update_status_once
  update_status_once_sound obj w w' run =
      let (latest, found, rest) =
        lift-eq-ok (c.get (d.meta obj).namespace (d.meta obj).name w) _ w run in
      elim (Bool-cases (same obj latest)) [
        | inl equal ↦
            let (_, stays) = ok_pair {a = tt} {b = tt} (rw equal at rest) in
            had_status latest
              (subst (λ v. c.get (d.meta obj).namespace (d.meta obj).name v ≡ ok latest) stays
                found)
              equal
        | inr differs ↦ wrote_status latest w found differs (rw differs at rest)
      ]

  Retried-sound :
      (obj : T) {w : W} {r : Outcome (Unit {0}) × W} (w' : W)
      → Retried (update_status_once d m c same obj) w r
      → r ≡ (ok tt, w')
      → StatusKept obj w'
  Retried-sound obj w' (final w) e = update_status_once_sound obj w w' e
  Retried-sound obj w' (retry_after c' k t) e = Retried-sound obj w' t e

  -- UpdateStatus, retries included: if it returns without error, the object of the cluster had the
  -- status of `obj` already, or was written with it last.
  pub update_status_sound :
      (obj : T) (w w' : W) → update_status d m c same obj w ≡ (ok tt, w') → StatusKept obj w'
  unfolding update_status
  update_status_sound obj w w' run = Retried-sound obj w' (m.retry_lem _ w) run

  -- UpdateStatus keeps what each write of the status keeps.
  pub Keeps-update_status :
      {P : W → Type 0} (obj : T)
      → ((latest : T) → Keeps P (c.update_status (d.copy_status obj latest)))
      → Keeps P (update_status d m c same obj)
  unfolding update_status update_status_once
  Keeps-update_status obj k = Keeps-retry m (update_status_once d m c same obj) (
      Keeps-attempt _ raise _ (Keeps-reads _) Keeps-raise
        (λ latest. Keeps-if (same obj latest) _ _ (Keeps-pure tt) (k latest)))
