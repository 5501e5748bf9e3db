-- ===== src/Defaults/Images.antt =====
-- internal/defaults/images.go, and the pull policy of the operator's containers
use supabase_kubernetes.Prelude.{String}

abbrev pub default_analytics_image : String
default_analytics_image = "supabase/logflare:1.50.15"

abbrev pub default_vector_image : String
default_vector_image = "timberio/vector:0.53.0-alpine"

abbrev pub default_supavisor_image : String
default_supavisor_image = "supabase/supavisor:2.9.13"

abbrev pub default_postgres_image : String
default_postgres_image = "supabase/postgres:17.6.1.136"

abbrev pub default_auth_image : String
default_auth_image = "supabase/gotrue:v2.197.0"

abbrev pub default_rest_image : String
default_rest_image = "postgrest/postgrest:v14.18"

abbrev pub default_meta_image : String
default_meta_image = "supabase/postgres-meta:v0.100.0"

abbrev pub default_realtime_image : String
default_realtime_image = "supabase/realtime:v2.143.3"

abbrev pub default_storage_image : String
default_storage_image = "supabase/storage-api:v1.81.0"

abbrev pub default_imgproxy_image : String
default_imgproxy_image = "darthsim/imgproxy:v3.31.4"

abbrev pub default_studio_image : String
default_studio_image = "supabase/studio:2026.10.12-sha-3699278"

abbrev pub default_envoy_image : String
default_envoy_image = "envoyproxy/envoy:v1.39.1"

abbrev pub default_edge_runtime_image : String
default_edge_runtime_image = "supabase/edge-runtime:v1.77.4"

-- corev1.PullIfNotPresent
abbrev pub pull_if_not_present : String
pull_if_not_present = "IfNotPresent"
