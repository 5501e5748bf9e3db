-- ===== src/Helper/Overlay.antt =====
-- internal/helper/overlay.go: user templates over generated ones, by JSON patches.
pub mod Laws
use supabase_kubernetes.Api.Common.{ServiceTemplate}
use supabase_kubernetes.Go.Outcome.{Outcome, ok}
use supabase_kubernetes.Go.Pure.{◌>>=◌}
use supabase_kubernetes.Kube.Core.{PersistentVolumeClaimSpec, Service}
use supabase_kubernetes.Kube.Pod.{PodTemplateSpec}
use supabase_kubernetes.Prelude.{Bool, Option, String, false, if◌then◌else◌, none, some, true}

mutual
  -- what json.Unmarshal gives at a variable of type any
  pub data Json : Type 0 where
    null : Json
    bool : Bool → Json
    number : String → Json
    text : String → Json
    array : Items → Json
    object : Fields → Json

  -- []any
  pub data Items : Type 0 where
    no_items : Items
    item : Json → Items → Items

  -- map[string]any
  pub data Fields : Type 0 where
    no_fields : Fields
    field : String → Json → Fields → Fields

-- `item == nil`
abbrev pub is_null : Json → Bool
is_null null = true
is_null (bool b) = false
is_null (number n) = false
is_null (text s) = false
is_null (array xs) = false
is_null (object fs) = false

unfoldable mutual
  pub prune_nulls : Json → Json
  prune_nulls null = null
  prune_nulls (bool b) = bool b
  prune_nulls (number n) = number n
  prune_nulls (text s) = text s
  prune_nulls (array xs) = array (prune_items xs)
  prune_nulls (object fs) = object (prune_fields fs)

  pub prune_items : Items → Items
  prune_items no_items = no_items
  prune_items (item v xs) = item (prune_nulls v) (prune_items xs)

  pub prune_fields : Fields → Fields
  prune_fields no_fields = no_fields
  prune_fields (field k v fs) =
      if is_null v then prune_fields fs else field k (prune_nulls v) (prune_fields fs)

-- encoding/json on untyped values; a document is a text.
pub record JsonText : Type 0 where
  pub unmarshal_any : String → Outcome Json
  pub marshal_any : Json → Outcome String

unfoldable pub omit_nulls : JsonText → String → Outcome String
omit_nulls j document = do value ← j.unmarshal_any document; j.marshal_any (prune_nulls value)

-- encoding/json on a type, and `strategicpatch.StrategicMergePatch` with that type's schema.
pub record Patching (T : Type 0) : Type 0 where
  pub marshal : T → Outcome String
  pub unmarshal : String → Outcome T
  pub strategic_merge_patch : String → String → Outcome String

-- the steps that the three overlay functions share
unfoldable pub patched : {T : Type 0} → JsonText → Patching T → T → T → Outcome T
unfolding omit_nulls
patched j p base user = do
  base_json ← p.marshal base
  user_json ← p.marshal user
  user_json' ← omit_nulls j user_json
  merged_json ← p.strategic_merge_patch base_json user_json'
  p.unmarshal merged_json

unfoldable pub overlay :
    JsonText
    → Patching PodTemplateSpec
    → PodTemplateSpec
    → Option PodTemplateSpec
    → Outcome PodTemplateSpec
unfolding patched
overlay j p base none = ok base
overlay j p base (some user) = patched j p base user

-- corev1.Service with the metadata and the spec of the template
abbrev pub user_service : ServiceTemplate → Service
user_service user = record { meta = user.meta; spec = user.spec; rest = "" }

unfoldable pub overlay_service :
    JsonText → Patching Service → Service → Option ServiceTemplate → Outcome Service
unfolding patched
overlay_service j p base none = ok base
overlay_service j p base (some user) = do
  merged ← patched j p base (user_service user)
  ok (record merged {
    meta = record merged.meta { name = base.meta.name; namespace = base.meta.namespace };
  })

unfoldable pub overlay_persistent_volume_claim_spec :
    JsonText
    → Patching PersistentVolumeClaimSpec
    → PersistentVolumeClaimSpec
    → Option PersistentVolumeClaimSpec
    → Outcome PersistentVolumeClaimSpec
unfolding patched
overlay_persistent_volume_claim_spec j p base none = ok base
overlay_persistent_volume_claim_spec j p base (some user) = patched j p base user
