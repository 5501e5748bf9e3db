-- ===== src/Tests/Mutate.antt =====
-- The theorems on the mutations at concrete objects.
use supabase_kubernetes.Go.GoMap.{GoMap, find_key, index, literal, made, nil, with_entry}
use supabase_kubernetes.Go.Outcome.{ok, panic}
use supabase_kubernetes.Helper.Overlay.{
  Json, array, field, item, no_fields, no_items, null, object, prune_nulls,
}
use supabase_kubernetes.Helper.Overlay.Laws.{HasNoNullFields, prune_nulls_lem}
use supabase_kubernetes.Kube.Core.{PersistentVolumeClaim, Secret}
use supabase_kubernetes.Kube.Meta.{object_meta}
use supabase_kubernetes.Prelude.{List, Option, String, [], none, refl, some, ◌↔◌, ◌∷◌, ◌≡◌, ◌≢◌}
use supabase_kubernetes.Reconciler.Mutate.Pvc.{merge_pvc, mutate_pvc, validate_pvc_immutable_fields}
use supabase_kubernetes.Reconciler.Mutate.Pvc.Laws.{
  IsCompatible, KeepsClaim, TakesClaim, mutate_pvc_iff, mutate_pvc_sound,
}
use supabase_kubernetes.Reconciler.Mutate.Simple.{copy_missing, mutate_secret}
use supabase_kubernetes.Reconciler.Mutate.Simple.Laws.{index-mutate_secret, mutate_secret_panics}
use supabase_kubernetes.Reconciler.StringMap.{merge_string_maps}

abbrev secret_of : GoMap String → Secret
secret_of entries = record {
  meta = object_meta "p-keys" "ns" nil;
  type = "Opaque";
  data_map = entries;
}

-- One key is there, and one is not.
abbrev half : Secret
half = secret_of (made (find_key (("crypto-key", "old") ∷ [])))

abbrev fresh : Secret
fresh = secret_of (literal (("crypto-key", "new") ∷ ("vault-enc-key", "new") ∷ []))

abbrev both : Secret
both = secret_of (made (with_entry (find_key (("crypto-key", "old") ∷ [])) "vault-enc-key" "new"))

abbrev keys : List String
keys = "crypto-key" ∷ "vault-enc-key" ∷ []

secret_run : mutate_secret keys half fresh ≡ ok both
unfolding mutate_secret copy_missing
secret_run = refl

index-mutate_secret_example : index both.data_map "crypto-key" ≡ some "old"
index-mutate_secret_example = index-mutate_secret keys half fresh both secret_run "crypto-key"

mutate_secret_panics_example :
    (mutate_secret keys (secret_of nil) fresh ≡ panic)
    ↔ ((◌≡◌ {A = GoMap String} nil nil) × (keys ≢ []))
mutate_secret_panics_example = mutate_secret_panics keys (secret_of nil) fresh

abbrev pub claim_with : String → Option String → PersistentVolumeClaim
claim_with request storage_class_name = record {
  meta = object_meta "data" "ns" nil;
  spec = record {
    access_modes = "ReadWriteOnce" ∷ [];
    selector = none;
    resources = record { storage_request = some request; rest = "" };
    volume_name = "";
    storage_class_name = storage_class_name;
    volume_mode = none;
    data_source = none;
    data_source_ref = none;
    volume_attributes_class_name = none;
  };
  rest = "";
}

-- The claim grows, and keeps the class that the API server has chosen.
claim_run :
    mutate_pvc (claim_with "1Gi" (some "fast")) (claim_with "2Gi" none)
    ≡ ok (claim_with "2Gi" (some "fast"))
unfolding mutate_pvc merge_pvc validate_pvc_immutable_fields merge_string_maps
claim_run = refl

mutate_pvc_iff_example :
    ((mutated : PersistentVolumeClaim) × (mutate_pvc
          (claim_with "1Gi" (some "fast"))
          (claim_with "2Gi" (some "slow"))
        ≡ ok mutated)
      × TakesClaim (claim_with "1Gi" (some "fast")) (claim_with "2Gi" (some "slow")) mutated)
    ↔ IsCompatible (claim_with "1Gi" (some "fast")).spec (claim_with "2Gi" (some "slow")).spec
mutate_pvc_iff_example =
    mutate_pvc_iff (claim_with "1Gi" (some "fast")) (claim_with "2Gi" (some "slow"))

mutate_pvc_sound_example :
    IsCompatible (claim_with "1Gi" (some "fast")).spec (claim_with "2Gi" none).spec
    × KeepsClaim (claim_with "1Gi" (some "fast")) (claim_with "2Gi" (some "fast"))
mutate_pvc_sound_example =
    mutate_pvc_sound (claim_with "1Gi" (some "fast")) (claim_with "2Gi" none)
      (claim_with "2Gi" (some "fast")) claim_run

-- A document with a null member, and with an element that is null.
abbrev document : Json
document = object (field "spec" null (field "items" (array (item null no_items)) no_fields))

prune_nulls_example :
    HasNoNullFields (prune_nulls document)
    × (HasNoNullFields document → prune_nulls document ≡ document)
    × (prune_nulls (prune_nulls document) ≡ prune_nulls document)
prune_nulls_example = prune_nulls_lem document
