-- ===== src/Defaults/Component/Storage.antt =====
-- internal/defaults/storage
pub mod StatefulSet
use supabase_kubernetes.Defaults.Component.{built_claim, built_service}
use supabase_kubernetes.Defaults.Context.{
  Context, Tools, component_labels, component_name, selector_labels,
}
use supabase_kubernetes.Defaults.Shapes.{claim_volume, from_int, opaque_secret, tcp_port}
use supabase_kubernetes.Go.Exec.{Exec, attempt, pure, raise}
use supabase_kubernetes.Go.GoMap.{GoMap, literal}
use supabase_kubernetes.Go.Outcome.{Outcome, ok, wrap}
use supabase_kubernetes.Helper.Random.{Random, generate_random_alphanumeric}
use supabase_kubernetes.Kube.Core.{PersistentVolumeClaim, Secret, Service}
use supabase_kubernetes.Kube.Meta.{object_meta}
use supabase_kubernetes.Kube.Pod.{Volume}
use supabase_kubernetes.Prelude.{Option, String, [], none, some, ℕ, ◌∷◌}

abbrev pub default_storage_port : ℕ
default_storage_port = 5000

unfoldable pub storage_labels : Tools → Context → GoMap String
storage_labels t ctx = component_labels t ctx "Storage" "storage" "storage" "storage"

unfoldable pub storage_selector_labels : Tools → Context → GoMap String
storage_selector_labels t ctx = selector_labels t ctx "Storage" "storage" "storage" "storage"

unfoldable pub storage_service_name : Tools → Context → String
storage_service_name t ctx = component_name t ctx "Storage" "storage"

unfoldable pub storage_stateful_set_name : Tools → Context → String
storage_stateful_set_name t ctx = component_name t ctx "Storage" "storage"

unfoldable pub storage_service : Tools → Context → Outcome (Option Service)
storage_service t ctx = elim ctx.spec.storage [
  | none ↦ ok none
  | some storage ↦
      built_service t
        (object_meta (storage_service_name t ctx) ctx.project.meta.namespace (storage_labels t ctx))
        (storage_selector_labels t ctx)
        (tcp_port "storage" default_storage_port (from_int default_storage_port) ∷ [])
        storage.service
]

unfoldable pub storage_pvc_name : Tools → Context → String
storage_pvc_name t ctx = component_name t ctx "Storage" "storage-data"

unfoldable pub storage_pvc : Tools → Context → Outcome (Option PersistentVolumeClaim)
storage_pvc t ctx = elim ctx.spec.storage [
  | none ↦ ok none
  | some storage ↦
      built_claim t
        (object_meta (storage_pvc_name t ctx) ctx.project.meta.namespace (storage_labels t ctx))
        storage.storage
]

unfoldable pub build_storage_volume : Tools → Context → Volume
build_storage_volume t ctx = claim_volume "storage-data" (storage_pvc_name t ctx)

unfoldable pub storage_secret_name : Tools → Context → String
storage_secret_name t ctx = component_name t ctx "Storage" "storage-auth"

-- the Secret of a context that has a StorageSpec
unfoldable pub new_storage_secret :
    {W : Type 0} → Random W → Tools → Context → Exec W (Option Secret)
new_storage_secret rand t ctx =
    attempt (generate_random_alphanumeric rand 32)
      (λ e. raise (wrap "generating storage access key id" e))
      λ access_key_id.
        attempt (generate_random_alphanumeric rand 32)
          (λ e. raise (wrap "generating storage access key secret" e))
          λ access_key_secret. pure (
            some (
              opaque_secret
                (object_meta (storage_secret_name t ctx) ctx.project.meta.namespace
                  (storage_labels t ctx))
                (literal
                  (("accessKeyId", access_key_id) ∷ ("accessKeySecret", access_key_secret) ∷ []))))

-- StorageSecret
unfoldable pub storage_secret : {W : Type 0} → Random W → Tools → Context → Exec W (Option Secret)
unfolding new_storage_secret
storage_secret rand t ctx = elim ctx.spec.storage [
  | none ↦ pure none
  | some storage ↦ new_storage_secret rand t ctx
]
