-- ===== src/Reconciler/StringMap.antt =====
-- mergeStringMaps of internal/reconciler/mutate.go
use supabase_kubernetes.Go.GoMap.{GoMap, nil, made, index, copied}
use supabase_kubernetes.Prelude.{String, ◌≡◌, refl, ap, fun_ext, Option, none, some, arith}

unfoldable pub merge_string_maps : GoMap String → GoMap String → GoMap String
merge_string_maps nil nil = nil
merge_string_maps existing desired = made (copied (copied (λ _. none) existing) desired)

abbrev pub preferred : Option String → Option String → Option String
preferred none o = o
preferred (some v) o = some v

-- A key of the merged map has the desired value where there is one, and else the existing value.
pub index-merge_string_maps :
    (existing desired : GoMap String) (k : String)
    → index (merge_string_maps existing desired) k ≡ preferred (index desired k) (index existing k)
unfolding merge_string_maps
index-merge_string_maps nil nil k = refl
index-merge_string_maps nil (made g) k = ground arith
index-merge_string_maps (made f) nil k = ground arith
index-merge_string_maps (made f) (made g) k = ground arith

pub merge_string_maps_idem :
    (existing desired : GoMap String)
    → merge_string_maps (merge_string_maps existing desired) desired
      ≡ merge_string_maps existing desired
unfolding merge_string_maps
merge_string_maps_idem nil nil = refl
merge_string_maps_idem nil (made g) = ap made (fun_ext λ k. ground arith)
merge_string_maps_idem (made f) nil = ap made (fun_ext λ k. ground arith)
merge_string_maps_idem (made f) (made g) = ap made (fun_ext λ k. ground arith)
