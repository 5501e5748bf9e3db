-- ===== src/Reconciler/Ensure.antt =====
-- internal/reconciler/ensure.go
pub mod Laws
pub mod Convergence
use supabase_kubernetes.Go.Exec.{Exec, attempt, lift, pure, raise, ◌>>◌, ◌>>=◌}
use supabase_kubernetes.Go.GoMap.{text_at}
use supabase_kubernetes.Go.Outcome.{
  Error, Outcome, conflict, err, errorf, not_found, ok, other, panic, wrap,
}
use supabase_kubernetes.Kube.Client.{Client, Machinery}
use supabase_kubernetes.Kube.Meta.{Object, ObjectMeta}
use supabase_kubernetes.Prelude.{
  Bool, Option, String, [], concat, false, if◌then◌else◌, none, not, some, true, ◌&&◌, ◌=s◌, ◌∷◌,
}

pub data Result : Type 0 where
  created updated unchanged deleted : Result

abbrev pub owner_uid_annotation : String
owner_uid_annotation = "core.supabase.io/owner-uid"

-- `apierrors.IsNotFound(err)`
abbrev pub is_not_found : Error → Bool
is_not_found e = elim e.reason [ not_found ↦ true | conflict ↦ false | other ↦ false ]

module _ {W T : Type 0} (o : Object T) (m : Machinery W) where
  -- the first step: the owner reference, where there is an owner
  unfoldable pub own : T → Option ObjectMeta → Outcome T
  own desired none = ok desired
  own desired (some owner) = elim (m.set_controller_reference owner (o.meta desired)) [
    | ok refs ↦ ok (o.with_meta (record (o.meta desired) { owner_references = refs }) desired)
    | err e ↦ err (wrap "setting owner reference" e)
    | panic ↦ panic
  ]

  -- the test of the first ownership guard
  unfoldable pub is_foreign : T → Option ObjectMeta → Bool
  is_foreign existing none = false
  is_foreign existing (some owner) =
      not (m.is_controlled_by (o.meta existing).owner_references owner)
      && not (text_at (o.meta existing).annotations owner_uid_annotation =s owner.uid)

  -- the test of the second ownership guard, on retained volumes
  unfoldable pub belongs_to_another : T → T → Bool
  belongs_to_another existing desired =
      let uid = text_at (o.meta desired).annotations owner_uid_annotation in
      not (uid =s "") && not (text_at (o.meta existing).annotations owner_uid_annotation =s uid)

  owner_name : Option ObjectMeta → String
  owner_name none = ""
  owner_name (some owner) = owner.name

  -- both guards, in their order
  unfoldable pub ownership_error : T → T → Option ObjectMeta → Option Error
  unfolding is_foreign belongs_to_another owner_name
  ownership_error existing desired owner =
      if is_foreign existing owner
      then some (
          errorf (
            concat (
              "resource "
              ∷ (o.meta existing).namespace
              ∷ "/"
              ∷ (o.meta existing).name
              ∷ " is not controlled by "
              ∷ owner_name owner
              ∷ [])))
      else if belongs_to_another existing desired
      then some (
          errorf (
            concat
              ("retained resource " ∷ (o.meta existing).name ∷ " belongs to another owner" ∷ [])))
      else none

  module _ (c : Client W T) (same : T → T → Bool) (mutate : T → T → Outcome T) where
    unfoldable pub create_missing : T → Exec W Result
    create_missing desired = do
      mutated ← lift (mutate desired desired)
      c.create mutated
      pure created

    unfoldable pub update_existing : T → T → Exec W Result
    update_existing existing desired = do
      mutated ← lift (mutate existing desired)
      if same mutated existing then pure unchanged else do c.update mutated; pure updated

    unfoldable pub check_existing : T → T → Option ObjectMeta → Exec W Result
    check_existing existing desired owner = elim (ownership_error existing desired owner) [
      | some e ↦ raise e
      | none ↦ update_existing existing desired
    ]

    -- The caller's `desired` is not nil. `original` is a copy of `desired` with its owner set.
    unfoldable pub ensure_resource : T → Option ObjectMeta → Exec W Result
    ensure_resource desired₀ owner = do
      desired ← lift (own desired₀ owner)
      attempt (λ w. (c.get (o.meta desired).namespace (o.meta desired).name w, w))
          (λ e. if is_not_found e then create_missing desired else raise e)
          (λ existing. check_existing existing desired owner)

-- NotFound is ignored, so that the call is idempotent.
unfoldable pub delete_resource_if_exists :
    {W T : Type 0} (c : Client W T) (name namespace : String) → Exec W (Unit {0})
delete_resource_if_exists c name namespace =
    attempt (c.delete namespace name) (λ e. if is_not_found e then pure tt else raise e) pure
