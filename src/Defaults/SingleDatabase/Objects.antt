-- ===== src/Defaults/SingleDatabase/Objects.antt =====
-- internal/defaults/singledatabase/secret.go, pvc.go and service.go
use supabase_kubernetes.Api.Databases.{SingleDatabase}
use supabase_kubernetes.Defaults.Shapes.{
  claim, cluster_service, default_claim_spec, from_int, opaque_secret, tcp_port,
}
use supabase_kubernetes.Defaults.SingleDatabase.{
  default_postgres_port, postgres_labels, postgres_pvc_name, postgres_secret_name,
  postgres_selector_labels, postgres_service_name, secret_key_password,
}
use supabase_kubernetes.Go.Exec.{Exec, attempt, pure, raise}
use supabase_kubernetes.Go.GoMap.{literal}
use supabase_kubernetes.Go.Outcome.{Outcome, ok, wrap}
use supabase_kubernetes.Go.Pure.{◌>>=◌}
use supabase_kubernetes.Helper.Overlay.{
  JsonText, Patching, overlay_persistent_volume_claim_spec, overlay_service,
}
use supabase_kubernetes.Helper.Random.{Random, generate_random_alphanumeric}
use supabase_kubernetes.Kube.Core.{
  PersistentVolumeClaim, PersistentVolumeClaimSpec, Secret, Service,
}
use supabase_kubernetes.Kube.Meta.{object_meta}
use supabase_kubernetes.Prelude.{Option, [], some, ◌∷◌}

-- PostgresSecret
unfoldable pub postgres_secret : {W : Type 0} → Random W → SingleDatabase → Exec W (Option Secret)
unfolding postgres_secret_name postgres_labels
postgres_secret rand db =
    attempt (generate_random_alphanumeric rand 32)
      (λ e. raise (wrap "generating postgres password" e))
      (λ password. pure (
        some (
          opaque_secret
            (object_meta (postgres_secret_name db) db.meta.namespace (postgres_labels db))
            (literal ((secret_key_password, password) ∷ [])))))

unfoldable pub build_postgres_volume_claim_spec :
    JsonText
    → Patching PersistentVolumeClaimSpec
    → SingleDatabase
    → Outcome PersistentVolumeClaimSpec
build_postgres_volume_claim_spec j p db =
    overlay_persistent_volume_claim_spec j p default_claim_spec db.spec.storage

-- PostgresPVC
unfoldable pub postgres_pvc :
    JsonText
    → Patching PersistentVolumeClaimSpec
    → SingleDatabase
    → Outcome (Option PersistentVolumeClaim)
unfolding postgres_pvc_name postgres_labels build_postgres_volume_claim_spec
postgres_pvc j p db = do
  spec ← build_postgres_volume_claim_spec j p db
  ok (some (claim (object_meta (postgres_pvc_name db) db.meta.namespace (postgres_labels db)) spec))

-- PostgresService
unfoldable pub postgres_service :
    JsonText → Patching Service → SingleDatabase → Outcome (Option Service)
unfolding postgres_service_name postgres_labels postgres_selector_labels
postgres_service j p db = do
  service ←
      overlay_service j p
        (cluster_service
          (object_meta (postgres_service_name db) db.meta.namespace (postgres_labels db))
          (postgres_selector_labels db)
          (tcp_port "postgres" default_postgres_port (from_int default_postgres_port) ∷ []))
        db.spec.service
  ok (some service)
