-- ===== src/Controller/Component/Run/Ended.antt =====
-- What a run did that ended with the component ready.
use supabase_kubernetes.Controller.Common.{ReconcileResult, finished, put_status}
use supabase_kubernetes.Controller.Component.{Component, not_ready, ready}
use supabase_kubernetes.Controller.Component.Run.{Tasks, conclude, run_tasks}
use supabase_kubernetes.Go.Exec.{Exec, pure, raise}
use supabase_kubernetes.Go.Exec.Inversion.{
  >>=-eq-ok, Avoids, Avoids-attempt, Avoids-raise, attempt-eq-ok, ok_pair, read-eq-ok,
}
use supabase_kubernetes.Go.Outcome.{Outcome, ok}
use supabase_kubernetes.Prelude.{String, [], ap, arith, ℕ, ◌∷◌, ◌≡◌, ◌≢◌}
use supabase_kubernetes.Reconciler.Status.{set_not_ready, set_ready}
use supabase_kubernetes.Reconciler.Status.Laws.{StatusKept, update_status_sound}

-- the tasks that ran, each without error, one after the other
pub data Ran {W : Type 0} : Tasks W → W → W → Type 0 where
  all_ran : {w : W} → Ran [] w w
  ran :
      {reason : String} {m : Exec W (Unit {0})} {tasks : Tasks W} {w w₁ w' : W}
      → m w ≡ (ok tt, w₁)
      → Ran tasks w₁ w'
      → Ran ((reason, m) ∷ tasks) w w'

module _ {W T : Type 0} (c : Component W T) where
  pub Avoids-not_ready :
      (obj : T) (reason message : String) → Avoids finished (not_ready c obj reason message)
  unfolding not_ready
  Avoids-not_ready obj reason message =
      Avoids-attempt
        (put_status c.writer
          (set_not_ready c.writer.conditioned c.writer.conditions obj reason message))
        raise (λ _. pure (record { requeue_after = 30 })) (λ e. Avoids-raise e finished)
        (λ _. record {
          at = λ w w' e. later (ap (λ (p : ReconcileResult). p.requeue_after) (ok_pair e).0);
        })
    where
      later : ◌≢◌ {A = ℕ} 30 0
      later e = omega (arith, e)

  -- the component with the status of a run that is done
  abbrev pub ready_obj : T → T
  ready_obj obj =
      set_ready c.writer.conditioned c.writer.conditions obj "ReconcileSucceeded"
        "Component resources reconciled successfully"

  -- All tasks ran, the workload was then seen rolled out, and the cluster has the ready status.
  pub record IsConcluded (obj : T) (tasks : Tasks W) (rolled_out : W → Outcome (Unit {0}))
      (w w' : W) : Type 0 where
    pub before : W
    pub done : Ran tasks w before
    pub up : rolled_out before ≡ ok tt
    pub kept :
        StatusKept c.writer.conditioned c.writer.machinery c.writer.client c.writer.same_status
          (ready_obj obj)
          w'

  run_tasks-finished :
      (obj : T) (tasks : Tasks W) (next : Exec W ReconcileResult) (w w' : W)
      → run_tasks c obj tasks next w ≡ (ok finished, w')
      → (before : W) × Ran tasks w before × (next before ≡ (ok finished, w'))
  unfolding run_tasks
  run_tasks-finished obj [] next w w' run = (w, all_ran, run)
  run_tasks-finished obj ((reason, m) ∷ tasks) next w w' run =
      let (_, w₁, first, rest) =
        attempt-eq-ok m (λ e. not_ready c obj reason e.text) (λ _. run_tasks c obj tasks next) w
          (λ e. Avoids-not_ready obj reason e.text) run in
      let (before, done, last) = run_tasks-finished obj tasks next w₁ w' rest in
      (before, ran first done, last)

  ready-finished :
      (obj : T) (w w' : W)
      → ready c obj w ≡ (ok finished, w')
      → StatusKept c.writer.conditioned c.writer.machinery c.writer.client c.writer.same_status
          (ready_obj obj)
          w'
  unfolding ready put_status
  ready-finished obj w w' run =
      let (_, w₁, sent, done) =
        >>=-eq-ok (put_status c.writer (ready_obj obj)) (λ _. pure finished) w run in
      update_status_sound c.writer.conditioned c.writer.machinery c.writer.client
        c.writer.same_status (ready_obj obj) w w' (rw (← (ok_pair done).1) sent)

  -- A run that concludes and asks for nothing more has done all that it names.
  pub conclude-finished :
      (obj : T) (tasks : Tasks W) (rolled_out : W → Outcome (Unit {0})) (w w' : W)
      → conclude c obj tasks rolled_out w ≡ (ok finished, w')
      → IsConcluded obj tasks rolled_out w w'
  unfolding conclude
  conclude-finished obj tasks rolled_out w w' run =
      let (before, done, last) = run_tasks-finished obj tasks _ w w' run in
      let (_, up, sent) =
        read-eq-ok rolled_out (λ e. not_ready c obj "WorkloadNotReady" e.text) (λ _. ready c obj)
          before (λ e. Avoids-not_ready obj "WorkloadNotReady" e.text) last in
      record { before = before; done = done; up = up; kept = ready-finished obj before w' sent }
