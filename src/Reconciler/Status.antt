-- ===== src/Reconciler/Status.antt =====
-- internal/reconciler/status.go
pub mod Laws
use supabase_kubernetes.Go.Exec.{Exec, pure, ◌>>=◌}
use supabase_kubernetes.Kube.Client.{Client, Machinery}
use supabase_kubernetes.Kube.Condition.{
  ConditionStatus, condition_true, condition_false, Condition, Conditions, Conditioned,
}
use supabase_kubernetes.Prelude.{String, Bool, if◌then◌else◌}

abbrev pub condition_type_ready : String
condition_type_ready = "Ready"

module _ {T : Type 0} (d : Conditioned T) (cs : Conditions) where
  unfoldable pub set_condition : T → String → ConditionStatus → String → String → T
  set_condition obj type status reason message =
      d.with_conditions
        (cs.set_status_condition (d.conditions obj) (record {
          type = type;
          status = status;
          observed_generation = (d.meta obj).generation;
          reason = reason;
          message = message;
        }))
        obj

  unfoldable pub set_ready : T → String → String → T
  unfolding set_condition
  set_ready obj reason message =
      set_condition obj condition_type_ready condition_true reason message

  unfoldable pub set_not_ready : T → String → String → T
  unfolding set_condition
  set_not_ready obj reason message =
      set_condition obj condition_type_ready condition_false reason message

module _ {W T : Type 0} (d : Conditioned T) (m : Machinery W) (c : Client W T)
    (same : T → T → Bool) where
  -- one run of the closure that is retried
  unfoldable pub update_status_once : T → Exec W (Unit {0})
  update_status_once obj = do
    latest ← λ w. (c.get (d.meta obj).namespace (d.meta obj).name w, w)
    if same obj latest then pure tt else c.update_status (d.copy_status obj latest)

  unfoldable pub update_status : T → Exec W (Unit {0})
  update_status obj = m.retry_on_conflict (update_status_once obj)
