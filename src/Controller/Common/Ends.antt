-- ===== src/Controller/Common/Ends.antt =====
-- How a run ends that asks for nothing more.
use supabase_kubernetes.Controller.Common.{
  ReconcileResult, StatusWriter, fail, finished, note_not_ready, wait,
}
use supabase_kubernetes.Go.Exec.{Exec, pure, raise}
use supabase_kubernetes.Go.Exec.Inversion.{Avoids, Avoids-attempt, Avoids-raise, ok_pair}
use supabase_kubernetes.Go.Outcome.{Error}
use supabase_kubernetes.Prelude.{String, ap, ℕ, ◌≢◌}

module _ {W T : Type 0} (s : StatusWriter W T) where
  Avoids-note_not_ready :
      {A : Type 0} (obj : T) (reason message : String) (next : Exec W A) {a : A}
      → Avoids a next
      → Avoids a (note_not_ready s obj reason message next)
  unfolding note_not_ready
  Avoids-note_not_ready obj reason message next k = Avoids-attempt _ _ _ (λ _. k) (λ _. k)

  -- A failure is an error for the caller.
  pub Avoids-fail : (obj : T) (reason : String) (e : Error) → Avoids finished (fail s obj reason e)
  unfolding fail
  Avoids-fail obj reason e =
      Avoids-note_not_ready obj reason e.text (raise e) (Avoids-raise e finished)

  pub Avoids-failure :
      (obj : T) (reason message : String) (e : Error)
      → Avoids finished (note_not_ready s obj reason message (raise e))
  Avoids-failure obj reason message e =
      Avoids-note_not_ready obj reason message (raise e) (Avoids-raise e finished)

  -- A wait asks for a later run, if the interval is not zero.
  pub Avoids-wait :
      (n : ℕ) (obj : T) (reason message : String)
      → n ≢ 0
      → Avoids finished (wait s n obj reason message)
  unfolding wait
  Avoids-wait n obj reason message h =
      Avoids-note_not_ready obj reason message (pure (record { requeue_after = n }))
        (record { at = λ w w' e. h (ap (λ (p : ReconcileResult). p.requeue_after) (ok_pair e).0) })
