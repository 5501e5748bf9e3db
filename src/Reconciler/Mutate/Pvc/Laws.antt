-- ===== src/Reconciler/Mutate/Pvc/Laws.antt =====
-- Which claims MutatePVC refuses, and its second run.
use supabase_kubernetes.Go.GoMap.{index}
use supabase_kubernetes.Go.Outcome.{Error, ok}
use supabase_kubernetes.Kube.Core.{PersistentVolumeClaim, PersistentVolumeClaimSpec}
use supabase_kubernetes.Prelude.{
  Bool, List, Option, Option-cases, String, [], ap, arith, eq_iff, false, if◌then◌else◌, inl, inr,
  none, not, refl, some, true, ◌&&◌, ◌=s◌, ◌↔◌, ◌∙◌, ◌∷◌, ◌≡◌, ◌⊎◌,
}
use supabase_kubernetes.Reconciler.Mutate.Pvc.{
  changes, merge_pvc, mutate_pvc, texts_eq, validate_pvc_immutable_fields,
}
use supabase_kubernetes.Reconciler.StringMap.{
  index-merge_string_maps, merge_string_maps_idem, preferred,
}

pub texts_eq_iff : (xs ys : List String) → (texts_eq xs ys ≡ true) ↔ (xs ≡ ys)
texts_eq_iff [] [] = (λ e. refl, λ e. refl)
texts_eq_iff [] (y ∷ ys) = (λ e. cc, λ e. cc)
texts_eq_iff (x ∷ xs) [] = (λ e. cc, λ e. cc)
texts_eq_iff (x ∷ xs) (y ∷ ys) =
    let (there, back) = texts_eq_iff xs ys in
    (λ e. ground (arith, eq_iff x y, there), λ e. ground (arith, eq_iff x y, back))

-- A desired value that is set is the existing one.
abbrev pub Agrees : Option String → Option String → Type 0
Agrees existing none = Unit
Agrees existing (some v) = existing ≡ some v

-- An update of a claim keeps what Kubernetes does not let change: the access modes, and each
-- other field where the desired claim sets it.
pub record IsCompatible (existing desired : PersistentVolumeClaimSpec) : Type 0 where
  pub access_modes : existing.access_modes ≡ desired.access_modes
  pub selector : Agrees existing.selector desired.selector
  pub volume_name : (desired.volume_name ≡ "") ⊎ (existing.volume_name ≡ desired.volume_name)
  pub storage_class_name : Agrees existing.storage_class_name desired.storage_class_name
  pub volume_mode : Agrees existing.volume_mode desired.volume_mode
  pub data_source : Agrees existing.data_source desired.data_source
  pub data_source_ref : Agrees existing.data_source_ref desired.data_source_ref

changes_iff : (a b : Option String) → (changes a b ≡ false) ↔ Agrees a b
changes_iff a none = (λ e. tt, λ h. refl)
changes_iff none (some v) = (λ e. cc, λ h. cc)
changes_iff (some u) (some v) = (λ e. ground (arith, eq_iff u v), λ h. ground (arith, eq_iff u v))

name_change_iff : (a b : String) → ((not (b =s "") && not (a =s b)) ≡ false) ↔ ((b ≡ "") ⊎ (a ≡ b))
name_change_iff a b =
    (λ e. ground (arith, eq_iff b "", eq_iff a b), λ h. ground (arith, eq_iff b "", eq_iff a b))

true_of_not : {b : Bool} → not b ≡ false → b ≡ true
true_of_not {b} h = ground arith

first_error : Bool → Error → Option Error → Option Error
first_error b e rest = if b then some e else rest

first_error-eq-none :
    (b : Bool) (e : Error) (rest : Option Error)
    → (first_error b e rest ≡ none) ↔ ((b ≡ false) × (rest ≡ none))
unfolding first_error
first_error-eq-none b e rest = (λ h. (ground arith, ground arith), λ h. ground arith)

-- The validation accepts exactly the desired specs that are compatible with the one of the cluster.
validate_pvc_immutable_fields_iff :
    (existing desired : PersistentVolumeClaimSpec)
    → (validate_pvc_immutable_fields existing desired ≡ none) ↔ IsCompatible existing desired
unfolding validate_pvc_immutable_fields first_error
validate_pvc_immutable_fields_iff e d = (
  λ h.
      let (a, h₁) = (first_error-eq-none _ _ _).0 h in
      let (b, h₂) = (first_error-eq-none _ _ _).0 h₁ in
      let (c, h₃) = (first_error-eq-none _ _ _).0 h₂ in
      let (s, h₄) = (first_error-eq-none _ _ _).0 h₃ in
      let (v, h₅) = (first_error-eq-none _ _ _).0 h₄ in
      let (r, h₆) = (first_error-eq-none _ _ _).0 h₅ in
      let (f, _) = (first_error-eq-none _ _ _).0 h₆ in
      record {
        access_modes = (texts_eq_iff _ _).0 (true_of_not a);
        selector = (changes_iff _ _).0 b;
        volume_name = (name_change_iff _ _).0 c;
        storage_class_name = (changes_iff _ _).0 s;
        volume_mode = (changes_iff _ _).0 v;
        data_source = (changes_iff _ _).0 r;
        data_source_ref = (changes_iff _ _).0 f;
      },
  λ h. simp (
    (texts_eq_iff _ _).1 h.access_modes,
    (changes_iff _ _).1 h.selector,
    (name_change_iff _ _).1 h.volume_name,
    (changes_iff _ _).1 h.storage_class_name,
    (changes_iff _ _).1 h.volume_mode,
    (changes_iff _ _).1 h.data_source,
    (changes_iff _ _).1 h.data_source_ref,
  ),
)

-- What an accepted update leaves as it is.
pub record KeepsClaim (existing mutated : PersistentVolumeClaim) : Type 0 where
  pub access_modes : mutated.spec.access_modes ≡ existing.spec.access_modes
  pub selector : mutated.spec.selector ≡ existing.spec.selector
  pub volume_name : mutated.spec.volume_name ≡ existing.spec.volume_name
  pub storage_class_name : mutated.spec.storage_class_name ≡ existing.spec.storage_class_name
  pub volume_mode : mutated.spec.volume_mode ≡ existing.spec.volume_mode
  pub data_source : mutated.spec.data_source ≡ existing.spec.data_source
  pub data_source_ref : mutated.spec.data_source_ref ≡ existing.spec.data_source_ref
  pub name : mutated.meta.name ≡ existing.meta.name
  pub uid : mutated.meta.uid ≡ existing.meta.uid

mutate_pvc-eq-ok :
    (existing desired : PersistentVolumeClaim) {mutated : PersistentVolumeClaim}
    → mutate_pvc existing desired ≡ ok mutated
    → (validate_pvc_immutable_fields existing.spec desired.spec ≡ none)
      × KeepsClaim existing mutated
unfolding mutate_pvc
mutate_pvc-eq-ok existing desired e =
    elim (Option-cases (validate_pvc_immutable_fields existing.spec desired.spec)) [
      | inl valid ↦ (
        valid,
        record {
          access_modes = ground arith;
          selector = ground arith;
          volume_name = ground arith;
          storage_class_name = ground arith;
          volume_mode = ground arith;
          data_source = ground arith;
          data_source_ref = ground arith;
          name = ground arith;
          uid = ground arith;
        },
      )
      | inr (e', invalid) ↦ cc (rw (invalid, mutate_pvc) at e)
    ]

-- An update that MutatePVC accepts was compatible, and keeps the immutable fields of the claim.
pub mutate_pvc_sound :
    (existing desired mutated : PersistentVolumeClaim)
    → mutate_pvc existing desired ≡ ok mutated
    → IsCompatible existing.spec desired.spec × KeepsClaim existing mutated
mutate_pvc_sound existing desired mutated e =
    let (valid, kept) = mutate_pvc-eq-ok existing desired e in
    ((validate_pvc_immutable_fields_iff _ _).0 valid, kept)

-- What an accepted update takes from the desired claim.
pub record TakesClaim (existing desired mutated : PersistentVolumeClaim) : Type 0 where
  pub resources : mutated.spec.resources ≡ desired.spec.resources
  pub volume_attributes_class_name :
      mutated.spec.volume_attributes_class_name
      ≡ preferred desired.spec.volume_attributes_class_name
          existing.spec.volume_attributes_class_name
  pub labels : mutated.meta.labels ≡ desired.meta.labels
  pub owner_references : mutated.meta.owner_references ≡ desired.meta.owner_references
  pub annotations :
      (k : String)
      → index mutated.meta.annotations k
        ≡ preferred (index desired.meta.annotations k) (index existing.meta.annotations k)

merge_pvc-Takes :
    (existing desired : PersistentVolumeClaim)
    → TakesClaim existing desired (merge_pvc existing desired)
unfolding merge_pvc
merge_pvc-Takes e d = record {
  resources = refl;
  volume_attributes_class_name = ground arith;
  labels = refl;
  owner_references = refl;
  annotations = index-merge_string_maps e.meta.annotations d.meta.annotations;
}

-- MutatePVC accepts exactly the desired claims that are compatible with the claim of the cluster, and
-- an accepted one gives its requested resources, labels and owner references, its annotations over
-- the existing ones, and its volume attributes class where it sets one.
pub mutate_pvc_iff :
    (existing desired : PersistentVolumeClaim)
    → ((mutated : PersistentVolumeClaim) × (mutate_pvc existing desired ≡ ok mutated)
        × TakesClaim existing desired mutated)
      ↔ IsCompatible existing.spec desired.spec
unfolding mutate_pvc
mutate_pvc_iff existing desired = (
  λ accepted. (mutate_pvc_sound existing desired accepted.0 accepted.1).0,
  λ h. (
    merge_pvc existing desired,
    rw ((validate_pvc_immutable_fields_iff _ _).1 h, mutate_pvc) refl,
    merge_pvc-Takes existing desired,
  ),
)

merge_pvc_idem :
    (existing desired : PersistentVolumeClaim)
    → merge_pvc (merge_pvc existing desired) desired ≡ merge_pvc existing desired
unfolding merge_pvc
merge_pvc_idem existing desired =
    ground (arith, merge_string_maps_idem existing.meta.annotations desired.meta.annotations)

-- The test reads only fields that the assignments leave alone.
validate-merge_pvc :
    (existing desired : PersistentVolumeClaim)
    → validate_pvc_immutable_fields (merge_pvc existing desired).spec desired.spec
      ≡ validate_pvc_immutable_fields existing.spec desired.spec
unfolding merge_pvc validate_pvc_immutable_fields
validate-merge_pvc existing desired = refl

mutate_pvc_of_valid :
    (existing desired : PersistentVolumeClaim)
    → validate_pvc_immutable_fields existing.spec desired.spec ≡ none
    → mutate_pvc existing desired ≡ ok (merge_pvc existing desired)
mutate_pvc_of_valid existing desired h = unfold mutate_pvc in rw (h, mutate_pvc) refl

-- A second run of MutatePVC, with the same desired claim, changes nothing.
pub mutate_pvc_idem :
    (existing desired mutated : PersistentVolumeClaim)
    → mutate_pvc existing desired ≡ ok mutated
    → mutate_pvc mutated desired ≡ ok mutated
mutate_pvc_idem existing desired mutated e =
    let valid = (mutate_pvc-eq-ok existing desired e).0 in
    let first = mutate_pvc_of_valid existing desired valid in
    let again =
      mutate_pvc_of_valid (merge_pvc existing desired) desired
        (validate-merge_pvc existing desired ∙ valid) in
    let same : merge_pvc existing desired ≡ mutated = cc in
    rw (← same) (again ∙ ap ok (merge_pvc_idem existing desired))
