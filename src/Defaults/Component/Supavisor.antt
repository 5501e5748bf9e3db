-- ===== src/Defaults/Component/Supavisor.antt =====
-- internal/defaults/supavisor
use supabase_kubernetes.Api.Common.{ResolvedDatabase}
use supabase_kubernetes.Api.Components.{SupavisorSpec}
use supabase_kubernetes.Defaults.Component.{built_service, password_env_var}
use supabase_kubernetes.Defaults.Component.Analytics.{UrlText, join_host_port}
use supabase_kubernetes.Defaults.Context.{
  Context, Tools, component_labels, component_name, selector_labels,
}
use supabase_kubernetes.Defaults.Images.{default_supavisor_image, pull_if_not_present}
use supabase_kubernetes.Defaults.Project.{jwt_secret_name, keys_secret_name}
use supabase_kubernetes.Defaults.Shapes.{
  config_map_volume, container_port, deployment, from_string, http_probe, opaque_secret,
  pod_template, probe, read_only, tcp_port, volume_mount,
}
use supabase_kubernetes.Go.GoMap.{GoMap, literal}
use supabase_kubernetes.Go.Outcome.{Outcome, ok, panic}
use supabase_kubernetes.Go.Pure.{◌>>=◌}
use supabase_kubernetes.Go.Strconv.{itoa}
use supabase_kubernetes.Helper.Env.{env_var, env_var_from_secret}
use supabase_kubernetes.Helper.Env.Merge.{merge_env_vars}
use supabase_kubernetes.Helper.Overlay.{overlay}
use supabase_kubernetes.Kube.Core.{ConfigMap, Secret, Service}
use supabase_kubernetes.Kube.Meta.{object_meta}
use supabase_kubernetes.Kube.Pod.{Container, EnvVar}
use supabase_kubernetes.Kube.Workload.{Deployment}
use supabase_kubernetes.Prelude.{List, Option, String, [], none, some, ℕ, ◌∷◌}
use supabase_kubernetes.Reconciler.Mutate.Pods.{blank_container}

abbrev pub default_supavisor_port : ℕ
default_supavisor_port = 4000

unfoldable pub supavisor_labels : Tools → Context → GoMap String
supavisor_labels t ctx = component_labels t ctx "Supavisor" "supavisor" "supavisor" "supavisor"

unfoldable pub supavisor_selector_labels : Tools → Context → GoMap String
supavisor_selector_labels t ctx =
    selector_labels t ctx "Supavisor" "supavisor" "supavisor" "supavisor"

unfoldable pub supavisor_service_name : Tools → Context → String
supavisor_service_name t ctx = component_name t ctx "Supavisor" "supavisor"

unfoldable pub supavisor_deployment_name : Tools → Context → String
supavisor_deployment_name t ctx = component_name t ctx "Supavisor" "supavisor"

abbrev pub default_session_port : ℕ
default_session_port = 5432

abbrev pub default_transaction_port : ℕ
default_transaction_port = 6543

-- SupavisorService
unfoldable pub supavisor_service : Tools → Context → Outcome (Option Service)
supavisor_service t ctx = elim ctx.spec.supavisor [
  | none ↦ ok none
  | some supavisor ↦
      built_service t
        (object_meta (supavisor_service_name t ctx) ctx.project.meta.namespace
          (supavisor_labels t ctx))
        (supavisor_selector_labels t ctx)
        (tcp_port "session" default_session_port (from_string "session")
          ∷ tcp_port "transaction" default_transaction_port (from_string "transaction")
          ∷ [])
        supavisor.service
]

unfoldable pub supavisor_secret_name : Tools → Context → String
supavisor_secret_name t ctx = component_name t ctx "Supavisor" "supavisor-auth"

unfoldable pub supavisor_secret : UrlText → Tools → Context → ResolvedDatabase → String → Secret
unfolding join_host_port
supavisor_secret u t ctx db password =
    opaque_secret
      (object_meta (supavisor_secret_name t ctx) ctx.project.meta.namespace
        (supavisor_labels t ctx))
      (literal (
        (
          "database-url",
          u.url_string "ecto" "supabase_admin" password (join_host_port db.host (itoa db.port))
              "/_supabase",
        )
        ∷ []))

unfoldable pub supavisor_config_map_name : Tools → Context → String
supavisor_config_map_name t ctx = component_name t ctx "Supavisor" "supavisor-config"

unfoldable pub supavisor_config_map : Tools → Context → ConfigMap
supavisor_config_map t ctx = record {
  meta =
      object_meta (supavisor_config_map_name t ctx) ctx.project.meta.namespace
        (supavisor_labels t ctx);
  data_map = literal (("pooler.exs", t.assets.supavisor_pooler_script) ∷ []);
  binary_data = "";
  rest = "";
}

unfoldable pub supavisor_env : Tools → Context → SupavisorSpec → ResolvedDatabase → List EnvVar
supavisor_env t ctx supavisor db =
    merge_env_vars
      (env_var "PORT" (itoa default_supavisor_port)
        ∷ env_var "POSTGRES_HOST" db.host
        ∷ env_var "POSTGRES_PORT" (itoa db.port)
        ∷ env_var "POSTGRES_DB" db.db_name
        ∷ password_env_var "POSTGRES_PASSWORD" db
        ∷ env_var_from_secret "DATABASE_URL" (supavisor_secret_name t ctx) "database-url"
        ∷ env_var "CLUSTER_POSTGRES" "true"
        ∷ env_var_from_secret "SECRET_KEY_BASE" (keys_secret_name ctx.project) "secret-key-base"
        ∷ env_var_from_secret "VAULT_ENC_KEY" (keys_secret_name ctx.project) "vault-enc-key"
        ∷ env_var_from_secret "API_JWT_SECRET" (jwt_secret_name ctx.project) "jwt-secret"
        ∷ env_var_from_secret "METRICS_JWT_SECRET" (jwt_secret_name ctx.project) "jwt-secret"
        ∷ env_var "REGION" "local"
        ∷ env_var "ERL_AFLAGS" "-proto_dist inet_tcp"
        ∷ env_var "POOLER_TENANT_ID" ctx.project.meta.name
        ∷ env_var "POOLER_POOL_MODE" "transaction"
        ∷ [])
      supavisor.config

unfoldable pub supavisor_container : List EnvVar → Container
supavisor_container env =
    let handler = http_probe "/api/health" (from_string "http") "" in
    record (blank_container "supavisor") {
      image = default_supavisor_image;
      image_pull_policy = pull_if_not_present;
      command = "/bin/sh" ∷ "-ec" ∷ [];
      args =
          "/app/bin/migrate && /app/bin/supavisor eval \"$(cat /etc/pooler/pooler.exs)\" && exec /app/bin/server"
          ∷ [];
      env = env;
      ports =
          container_port "http" default_supavisor_port ""
          ∷ container_port "session" default_session_port ""
          ∷ container_port "transaction" default_transaction_port ""
          ∷ [];
      volume_mounts = read_only (volume_mount "pooler" "/etc/pooler" "") ∷ [];
      startup_probe = some (probe handler 0 10 5 30);
      readiness_probe = some (probe handler 0 5 5 3);
      liveness_probe = some (probe handler 0 10 5 10);
    }

-- the strategy of the Deployment
abbrev pub recreating : Deployment → Deployment
recreating d = record d { spec = record d.spec { strategy = "Recreate" } }

-- A missing SupavisorSpec makes the source panic.
unfoldable pub supavisor_deployment :
    Tools → Context → ResolvedDatabase → Outcome (Option Deployment)
unfolding supavisor_env supavisor_container
supavisor_deployment t ctx db = elim ctx.spec.supavisor [
  | none ↦ panic
  | some supavisor ↦
      overlay t.json t.pods
        (pod_template (supavisor_labels t ctx)
          (supavisor_container (supavisor_env t ctx supavisor db) ∷ [])
          (config_map_volume "pooler" (supavisor_config_map_name t ctx) ∷ []))
        supavisor.pod
      >>= λ template. ok (
          some (
            recreating (
              deployment
                (object_meta (supavisor_deployment_name t ctx) ctx.project.meta.namespace
                  (supavisor_labels t ctx))
                (some 1) (supavisor_selector_labels t ctx) template)))
]
