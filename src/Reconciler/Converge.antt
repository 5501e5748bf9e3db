-- ===== src/Reconciler/Converge.antt =====
-- EnsureResource with the mutations of internal/reconciler/mutate.go, called again after an update,
-- where the API server keeps the mutated object up to the values that it fills in.
pub mod ConfigMaps
pub mod Services
use supabase_kubernetes.Go.GoMap.{index, text_at}
use supabase_kubernetes.Go.Outcome.{Outcome, err, ok, panic}
use supabase_kubernetes.Kube.Client.{Machinery}
use supabase_kubernetes.Kube.Meta.{Object, ObjectMeta, OwnerReference}
use supabase_kubernetes.Prelude.{
  List, Option, String, ap, arith, inl, inr, none, refl, some, true, ◌∙◌, ◌≡◌, ◌⊎◌,
}
use supabase_kubernetes.Reconciler.Ensure.{own, owner_uid_annotation}
use supabase_kubernetes.Reconciler.Ensure.Laws.{IsOurs}
use supabase_kubernetes.Reconciler.Mutate.Simple.{merge_meta}
use supabase_kubernetes.Reconciler.StringMap.{
  index-merge_string_maps, merge_string_maps, merge_string_maps_idem,
}

-- The server keeps the metadata that the client manages, and sets the rest.
pub record KeepsMeta (x y : ObjectMeta) : Type 0 where
  pub name : y.name ≡ x.name
  pub namespace : y.namespace ≡ x.namespace
  pub labels : y.labels ≡ x.labels
  pub annotations : y.annotations ≡ x.annotations
  pub owner_references : y.owner_references ≡ x.owner_references

-- The desired object does not ask for an empty owner UID.
abbrev pub IsPlain : ObjectMeta → Type 0
IsPlain m =
    text_at m.annotations owner_uid_annotation ≡ ""
    → index m.annotations owner_uid_annotation ≡ none

-- `controllerutil.SetControllerReference` makes the owner the controller.
abbrev pub Controls : {W : Type 0} → Machinery W → Type 0
Controls m =
    (owner meta : ObjectMeta) (refs : List OwnerReference)
    → m.set_controller_reference owner meta ≡ ok refs
    → m.is_controlled_by refs owner ≡ true

module _ {W T : Type 0} (o : Object T) (m : Machinery W) where
  -- What is made for an owner is the owner's.
  pub own-IsOurs :
      Controls m
      → (desired₀ desired : T) (owner : Option ObjectMeta) → own o m desired₀ owner ≡ ok desired
      → IsOurs o m desired desired owner
  unfolding own
  own-IsOurs controls desired₀ desired none e = (tt, inr refl)
  own-IsOurs controls desired₀ desired (some owner) e =
      go (m.set_controller_reference owner (o.meta desired₀)) refl e
    where
      go :
          (read : Outcome (List OwnerReference))
          → m.set_controller_reference owner (o.meta desired₀) ≡ read
          → own o m desired₀ (some owner) ≡ ok desired
          → IsOurs o m desired desired (some owner)
      go (ok refs) found run =
          let same : o.with_meta (record (o.meta desired₀) { owner_references = refs }) desired₀
              ≡ desired =
            cc (rw (found, own) at run) in
          (
            inl (rw (← same, o.meta-with_meta) (controls owner (o.meta desired₀) refs found)),
            inr refl,
          )
      go (err e') found run = cc (rw (found, own) at run)
      go panic found run = cc (rw (found, own) at run)

text_of_index : Option String → String
text_of_index none = ""
text_of_index (some v) = v

merged_uid :
    (e d : ObjectMeta)
    → IsPlain d
    → (text_at d.annotations owner_uid_annotation ≡ "")
      ⊎ (text_at e.annotations owner_uid_annotation ≡ text_at d.annotations owner_uid_annotation)
    → text_at (merge_string_maps e.annotations d.annotations) owner_uid_annotation
      ≡ text_at e.annotations owner_uid_annotation
merged_uid e d plain h =
    ground (arith, index-merge_string_maps e.annotations d.annotations owner_uid_annotation, plain)

-- The metadata of the mutated object, as it is stored, is not changed by a second merge.
pub merge_meta_stored : (e d y : ObjectMeta) → KeepsMeta (merge_meta e d) y → merge_meta y d ≡ y
merge_meta_stored e d y k =
    ground (arith, merge_string_maps_idem e.annotations d.annotations, k.labels, k.annotations)

module _ {W T : Type 0} (o : Object T) (m : Machinery W) where
  IsOurs-congr :
      (existing y desired : T) (owner : Option ObjectMeta)
      → (o.meta y).owner_references ≡ (o.meta existing).owner_references
      → text_at (o.meta y).annotations owner_uid_annotation
        ≡ text_at (o.meta existing).annotations owner_uid_annotation
      → IsOurs o m existing desired owner
      → IsOurs o m y desired owner
  IsOurs-congr existing y desired none refs uid h = rw uid h
  IsOurs-congr existing y desired (some owner) refs uid h = rw (refs, uid) h

  -- An object that is ours still is after its metadata is merged and stored.
  pub IsOurs-stored :
      (existing y desired : T) (owner : Option ObjectMeta)
      → IsPlain (o.meta desired)
      → KeepsMeta (merge_meta (o.meta existing) (o.meta desired)) (o.meta y)
      → IsOurs o m existing desired owner
      → IsOurs o m y desired owner
  IsOurs-stored existing y desired owner plain k h =
      IsOurs-congr existing y desired owner k.owner_references
        (ap (λ a. text_at a owner_uid_annotation) k.annotations
          ∙ merged_uid (o.meta existing) (o.meta desired) plain h.1)
        h
