-- ===== src/Helper/ClusterDomain.antt =====
-- internal/helper/clusterdomain.go
use supabase_kubernetes.Prelude.{String, [], concat, ◌∷◌}

-- ServiceFQDN, in the given cluster domain
unfoldable pub service_fqdn : String → (name namespace : String) → String
service_fqdn cluster_domain name namespace =
    concat (name ∷ "." ∷ namespace ∷ ".svc." ∷ cluster_domain ∷ [])
