-- ===== src/Kube/Condition.antt =====
-- Status conditions, and the functions of apimachinery's `meta` package on them.
use supabase_kubernetes.Kube.Meta.{ObjectMeta}
use supabase_kubernetes.Prelude.{Bool, List, String, false, true, ℕ, ◌≡◌, ◌≢◌}

pub data ConditionStatus : Type 0 where
  condition_true condition_false condition_unknown : ConditionStatus

pub record Condition : Type 0 where
  pub type : String
  pub status : ConditionStatus
  pub observed_generation : ℕ
  pub reason : String
  pub message : String

-- meta.SetStatusCondition and meta.IsStatusConditionTrue. The laws are what their documentation
-- says of the condition that is set and of the other ones.
pub record Conditions : Type 0 where
  pub set_status_condition : List Condition → Condition → List Condition
  pub is_status_condition_true : List Condition → String → Bool
  pub set_true :
      (cs : List Condition) (c : Condition)
      → c.status ≡ condition_true
      → is_status_condition_true (set_status_condition cs c) c.type ≡ true
  pub set_not_true :
      (cs : List Condition) (c : Condition)
      → c.status ≢ condition_true
      → is_status_condition_true (set_status_condition cs c) c.type ≡ false
  pub set_other :
      (cs : List Condition) (c : Condition) (type : String)
      → c.type ≢ type
      → is_status_condition_true (set_status_condition cs c) type ≡ is_status_condition_true cs type

-- An object with a status subresource that holds conditions (`ConditionedObject` of
-- internal/reconciler/status.go, with the reflection that `copyStatus` does on it).
pub record Conditioned (T : Type 0) : Type 0 where
  pub meta : T → ObjectMeta
  pub conditions : T → List Condition
  pub with_conditions : List Condition → T → T
  -- `copy_status from to`
  pub copy_status : T → T → T
  pub conditions-with_conditions :
      (cs : List Condition) (t : T) → conditions (with_conditions cs t) ≡ cs
  pub conditions-copy_status : (from to : T) → conditions (copy_status from to) ≡ conditions from
