-- ===== src/Controller/Common.antt =====
-- What the reconcilers share: their results, and the statuses that they leave.
pub mod Effects
pub mod Ends
use supabase_kubernetes.Go.Exec.{Exec, attempt, ignoring, lift, pure, raise, wrapping}
use supabase_kubernetes.Go.Outcome.{Error, Outcome}
use supabase_kubernetes.Go.Pure.{wrapped}
use supabase_kubernetes.Kube.Client.{Client, Machinery}
use supabase_kubernetes.Kube.Condition.{Conditioned, Conditions}
use supabase_kubernetes.Kube.Meta.{Object, ObjectMeta}
use supabase_kubernetes.Prelude.{Bool, Option, String, [], concat, none, some, ℕ, ◌∷◌}
use supabase_kubernetes.Reconciler.Ensure.{delete_resource_if_exists, ensure_resource}
use supabase_kubernetes.Reconciler.Status.{set_not_ready, update_status}

-- ctrl.Result; a `requeue_after` of zero asks for nothing.
pub record ReconcileResult : Type 0 where
  pub requeue_after : ℕ

-- ctrl.Result{}
abbrev pub finished : ReconcileResult
finished = record { requeue_after = 0 }

-- A client for one kind of object with a status, and what DeepEqual says of two such statuses.
pub record StatusWriter (W T : Type 0) : Type 0 where
  pub machinery : Machinery W
  pub conditions : Conditions
  pub conditioned : Conditioned T
  pub client : Client W T
  pub same_status : T → T → Bool

module _ {W T : Type 0} (s : StatusWriter W T) where
  unfoldable pub put_status : T → Exec W (Unit {0})
  put_status obj = update_status s.conditioned s.machinery s.client s.same_status obj

  -- SetNotReady and UpdateStatus, whose error is only logged
  unfoldable pub note_not_ready : {A : Type 0} → T → String → String → Exec W A → Exec W A
  unfolding put_status
  note_not_ready obj reason message next =
      ignoring (put_status (set_not_ready s.conditioned s.conditions obj reason message)) next

  -- `SetNotReady(obj, reason, err.Error()); UpdateStatus; return ctrl.Result{}, err`
  unfoldable pub fail : T → String → Error → Exec W ReconcileResult
  unfolding note_not_ready
  fail obj reason e = note_not_ready obj reason e.text (raise e)

  -- `SetNotReady(obj, reason, message); UpdateStatus; return ctrl.Result{RequeueAfter: …}, nil`
  unfoldable pub wait : ℕ → T → String → String → Exec W ReconcileResult
  unfolding note_not_ready
  wait interval obj reason message =
      note_not_ready obj reason message (pure (record { requeue_after = interval }))

-- An ensure method of a reconciler: build the object, delete it where none is wanted, and else
-- ensure it. The outcome is only logged.
module _ {W T : Type 0} (o : Object T) (m : Machinery W) (c : Client W T)
    (same : T → T → Bool) where
  unfoldable pub ensure_wanted :
      (T → T → Outcome T)
      → (kind name namespace : String) → Option T
      → ObjectMeta
      → Exec W (Unit {0})
  ensure_wanted mutate kind name namespace none owner = delete_resource_if_exists c name namespace
  ensure_wanted mutate kind name namespace (some wanted) owner =
      attempt
        (wrapping (concat ("ensuring " ∷ kind ∷ []))
          (ensure_resource o m c same mutate wanted (some owner)))
        raise (λ _. pure tt)

  unfoldable pub ensure_built :
      (T → T → Outcome T)
      → (kind name namespace : String) → Outcome (Option T)
      → ObjectMeta
      → Exec W (Unit {0})
  unfolding ensure_wanted
  ensure_built mutate kind name namespace built owner =
      attempt (lift (wrapped (concat ("building " ∷ kind ∷ [])) built)) raise
        (λ wanted. ensure_wanted mutate kind name namespace wanted owner)
