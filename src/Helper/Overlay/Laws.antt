-- ===== src/Helper/Overlay/Laws.antt =====
-- Pruned documents, and the managed name and namespace of a Service.
use mathlib.Core.Path.{ap₂}
use supabase_kubernetes.Api.Common.{ServiceTemplate}
use supabase_kubernetes.Go.Outcome.{ok}
use supabase_kubernetes.Go.Pure.{bind-eq-ok}
use supabase_kubernetes.Helper.Overlay.{
  Fields, Items, Json, JsonText, Patching, array, bool, field, is_null, item, no_fields, no_items,
  null, number, object, overlay_service, patched, prune_fields, prune_items, prune_nulls, text,
  user_service,
}
use supabase_kubernetes.Kube.Core.{Service}
use supabase_kubernetes.Prelude.{
  Bool-cases, Option, String, ap, arith, false, if◌then◌else◌, inl, inr, none, refl, some, ◌∙◌, ◌≡◌,
}

-- No member of an object is null, at any depth. (An element of an array may be.)
mutual
  pub HasNoNullFields : Json → Type 0
  HasNoNullFields null = Unit
  HasNoNullFields (bool b) = Unit
  HasNoNullFields (number n) = Unit
  HasNoNullFields (text s) = Unit
  HasNoNullFields (array xs) = ItemsHaveNoNullFields xs
  HasNoNullFields (object fs) = FieldsAreNotNull fs

  pub ItemsHaveNoNullFields : Items → Type 0
  ItemsHaveNoNullFields no_items = Unit
  ItemsHaveNoNullFields (item v xs) = HasNoNullFields v × ItemsHaveNoNullFields xs

  pub FieldsAreNotNull : Fields → Type 0
  FieldsAreNotNull no_fields = Unit
  FieldsAreNotNull (field k v fs) = (is_null v ≡ false) × HasNoNullFields v × FieldsAreNotNull fs

is_null-prune_nulls : (v : Json) → is_null (prune_nulls v) ≡ is_null v
unfolding prune_nulls
is_null-prune_nulls null = refl
is_null-prune_nulls (bool b) = refl
is_null-prune_nulls (number n) = refl
is_null-prune_nulls (text s) = refl
is_null-prune_nulls (array xs) = refl
is_null-prune_nulls (object fs) = refl

pruned_field :
    (k : String) (v : Json) (rest : Fields)
    → HasNoNullFields (prune_nulls v)
    → FieldsAreNotNull rest
    → FieldsAreNotNull (if is_null v then rest else field k (prune_nulls v) rest)
unfolding FieldsAreNotNull
pruned_field k v rest h t = elim (Bool-cases (is_null v)) [
  | inl is ↦ rw is t
  | inr is_not ↦ rw is_not (is_null-prune_nulls v ∙ is_not, h, t)
]

mutual
  unfolding prune_nulls prune_items prune_fields HasNoNullFields ItemsHaveNoNullFields
      FieldsAreNotNull

  prune_nulls-HasNoNullFields : (v : Json) → HasNoNullFields (prune_nulls v)
  prune_nulls-HasNoNullFields null = tt
  prune_nulls-HasNoNullFields (bool b) = tt
  prune_nulls-HasNoNullFields (number n) = tt
  prune_nulls-HasNoNullFields (text s) = tt
  prune_nulls-HasNoNullFields (array xs) = prune_items_lem xs
  prune_nulls-HasNoNullFields (object fs) = prune_fields_lem fs

  prune_items_lem : (xs : Items) → ItemsHaveNoNullFields (prune_items xs)
  prune_items_lem no_items = tt
  prune_items_lem (item v xs) = (prune_nulls-HasNoNullFields v, prune_items_lem xs)

  prune_fields_lem : (fs : Fields) → FieldsAreNotNull (prune_fields fs)
  prune_fields_lem no_fields = tt
  prune_fields_lem (field k v fs) =
      pruned_field k v (prune_fields fs) (prune_nulls-HasNoNullFields v) (prune_fields_lem fs)

mutual
  unfolding prune_nulls prune_items prune_fields HasNoNullFields ItemsHaveNoNullFields
      FieldsAreNotNull

  prune_nulls_fixed : (v : Json) → HasNoNullFields v → prune_nulls v ≡ v
  prune_nulls_fixed null h = refl
  prune_nulls_fixed (bool b) h = refl
  prune_nulls_fixed (number n) h = refl
  prune_nulls_fixed (text s) h = refl
  prune_nulls_fixed (array xs) h = ap array (prune_items_fixed xs h)
  prune_nulls_fixed (object fs) h = ap object (prune_fields_fixed fs h)

  prune_items_fixed : (xs : Items) → ItemsHaveNoNullFields xs → prune_items xs ≡ xs
  prune_items_fixed no_items h = refl
  prune_items_fixed (item v xs) h = ap₂ item (prune_nulls_fixed v h.0) (prune_items_fixed xs h.1)

  prune_fields_fixed : (fs : Fields) → FieldsAreNotNull fs → prune_fields fs ≡ fs
  prune_fields_fixed no_fields h = refl
  prune_fields_fixed (field k v fs) h =
      rw h.0 (ap₂ (field k) (prune_nulls_fixed v h.1) (prune_fields_fixed fs h.2))

-- pruneNulls leaves no null member in any object, at any depth, changes nothing in a document
-- that has none, and so changes nothing the second time.
pub prune_nulls_lem :
    (v : Json)
    → HasNoNullFields (prune_nulls v)
      × (HasNoNullFields v → prune_nulls v ≡ v)
      × (prune_nulls (prune_nulls v) ≡ prune_nulls v)
prune_nulls_lem v = (
  prune_nulls-HasNoNullFields v,
  prune_nulls_fixed v,
  prune_nulls_fixed (prune_nulls v) (prune_nulls-HasNoNullFields v),
)

-- Whatever a user's Service template holds and whatever the patch makes of it, an OverlayService
-- that returns gives a Service of the name and namespace that the operator has chosen.
pub overlay_service_keeps_key :
    (j : JsonText) (p : Patching Service) (base result : Service) (user : Option ServiceTemplate)
    → overlay_service j p base user ≡ ok result
    → (result.meta.name ≡ base.meta.name) × (result.meta.namespace ≡ base.meta.namespace)
unfolding overlay_service
overlay_service_keeps_key j p base result none h = (cc, cc)
overlay_service_keeps_key j p base result (some user) h =
    let (merged, run, done) = bind-eq-ok (patched j p base (user_service user)) _ h in
    (ground arith, ground arith)
