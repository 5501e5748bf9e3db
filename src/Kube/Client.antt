-- ===== src/Kube/Client.antt =====
-- controller-runtime's client, one value for each kind of object, over an abstract cluster.
use supabase_kubernetes.Go.Exec.{Exec}
use supabase_kubernetes.Go.Exec.Keeps.{Keeps}
use supabase_kubernetes.Go.Outcome.{Error, Outcome, conflict, err}
use supabase_kubernetes.Kube.Meta.{ObjectMeta, OwnerReference}
use supabase_kubernetes.Prelude.{Bool, List, String, ◌≡◌}

-- Reads return what the cluster holds at the moment of the call; writes give the next cluster.
pub record Client (W T : Type 0) : Type 0 where
  -- by namespace and name
  pub get : String → String → W → Outcome T
  -- in a namespace
  pub list : String → W → Outcome (List T)
  pub create : T → Exec W (Unit {0})
  pub update : T → Exec W (Unit {0})
  pub update_status : T → Exec W (Unit {0})
  -- by namespace and name
  pub delete : String → String → Exec W (Unit {0})

-- What `retry.RetryOnConflict` may do: it runs the body, and runs it retry_after only after a conflict.
pub data Retried {W : Type 0} (body : Exec W (Unit {0})) : W → Outcome (Unit {0}) × W → Type 0 where
  final : (w : W) → Retried body w (body w)
  retry_after :
      {w w' : W} {e : Error} {r : Outcome (Unit {0}) × W}
      → body w ≡ (err e, w')
      → e.reason ≡ conflict
      → Retried body w' r
      → Retried body w r

-- The functions of apimachinery, client-go and controller-runtime that work on plain data.
pub record Machinery (W : Type 0) : Type 0 where
  -- controllerutil.SetControllerReference(owner, controlled): the owner references that it gives
  -- to `controlled`, the only part that it changes
  pub set_controller_reference : ObjectMeta → ObjectMeta → Outcome (List OwnerReference)
  -- metav1.IsControlledBy(object, owner), which reads the object's owner references
  pub is_controlled_by : List OwnerReference → ObjectMeta → Bool
  -- retry.RetryOnConflict(retry.DefaultRetry, body)
  pub retry_on_conflict : Exec W (Unit {0}) → Exec W (Unit {0})
  pub retry_lem : (body : Exec W (Unit {0})) (w : W) → Retried body w (retry_on_conflict body w)

module _ {W : Type 0} {P : W → Type 0} where
  Retried-keeps :
      {body : Exec W (Unit {0})} {w : W} {r : Outcome (Unit {0}) × W}
      → Keeps P body
      → Retried body w r
      → P w
      → P r.1
  Retried-keeps k (final w) p = k.at w p
  Retried-keeps {w = w} k (retry_after {w' = w'} e c t) p = Retried-keeps k t (rw e at (k.at w p))

  -- What one run of the body keeps, the retries keep.
  pub Keeps-retry :
      (m : Machinery W) (body : Exec W (Unit {0}))
      → Keeps P body
      → Keeps P (m.retry_on_conflict body)
  Keeps-retry m body k = record { at = λ w p. Retried-keeps k (m.retry_lem body w) p }
