-- ===== src/Reconciler/Mutate/Pvc.antt =====
-- MutatePVC and validatePVCImmutableFields
pub mod Laws
use supabase_kubernetes.Go.Outcome.{Error, errorf, Outcome, ok, err}
use supabase_kubernetes.Kube.Core.{PersistentVolumeClaim, PersistentVolumeClaimSpec}
use supabase_kubernetes.Reconciler.StringMap.{merge_string_maps}
use supabase_kubernetes.Prelude.{
  String, ◌=s◌, Bool, true, false, not, ◌&&◌, Option, none, some, List, [], ◌∷◌, is_some,
  if◌then◌else◌,
}

-- equality.Semantic.DeepEqual on lists of strings and on pointers to strings
abbrev pub texts_eq : List String → List String → Bool
texts_eq [] [] = true
texts_eq (a ∷ as') (b ∷ bs) = (a =s b) && texts_eq as' bs
texts_eq _ _ = false

abbrev pub option_eq : Option String → Option String → Bool
option_eq none none = true
option_eq (some a) (some b) = a =s b
option_eq _ _ = false

-- Where the desired value is set, it differs from the existing one.
abbrev pub changes : Option String → Option String → Bool
changes existing desired = is_some desired && not (option_eq existing desired)

unfoldable pub validate_pvc_immutable_fields :
    PersistentVolumeClaimSpec → PersistentVolumeClaimSpec → Option Error
validate_pvc_immutable_fields existing desired =
    if not (texts_eq existing.access_modes desired.access_modes)
    then some (errorf "PVC accessModes is immutable")
    else if changes existing.selector desired.selector
    then some (errorf "PVC selector is immutable")
    else if not (desired.volume_name =s "") && not (existing.volume_name =s desired.volume_name)
    then some (errorf "PVC volumeName is immutable")
    else if changes existing.storage_class_name desired.storage_class_name
    then some (errorf "PVC storageClassName is immutable")
    else if changes existing.volume_mode desired.volume_mode
    then some (errorf "PVC volumeMode is immutable")
    else if changes existing.data_source desired.data_source
    then some (errorf "PVC dataSource is immutable")
    else if changes existing.data_source_ref desired.data_source_ref
    then some (errorf "PVC dataSourceRef is immutable")
    else none

-- The desired value where it is set, and else the existing one.
abbrev pub set_or {ℓ} : {A : Type ℓ} → Option A → Option A → Option A
set_or (some v) existing = some v
set_or none existing = existing

-- The assignments of MutatePVC.
unfoldable pub merge_pvc : PersistentVolumeClaim → PersistentVolumeClaim → PersistentVolumeClaim
merge_pvc existing desired = record existing {
  spec = record existing.spec {
    resources = desired.spec.resources;
    volume_attributes_class_name =
        set_or desired.spec.volume_attributes_class_name existing.spec.volume_attributes_class_name;
  };
  meta = record existing.meta {
    labels = desired.meta.labels;
    owner_references = desired.meta.owner_references;
    annotations = merge_string_maps existing.meta.annotations desired.meta.annotations;
  };
}

unfoldable pub mutate_pvc :
    PersistentVolumeClaim → PersistentVolumeClaim → Outcome PersistentVolumeClaim
unfolding merge_pvc
mutate_pvc existing desired = elim (validate_pvc_immutable_fields existing.spec desired.spec) [
  | some e ↦ err e
  | none ↦ ok (merge_pvc existing desired)
]
