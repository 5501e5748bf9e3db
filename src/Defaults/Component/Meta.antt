-- ===== src/Defaults/Component/Meta.antt =====
-- internal/defaults/meta
use supabase_kubernetes.Api.Common.{ResolvedDatabase}
use supabase_kubernetes.Api.Components.{MetaSpec}
use supabase_kubernetes.Defaults.Component.{
  built_deployment, built_service, password_env_var, replicas_or_one,
}
use supabase_kubernetes.Defaults.Context.{
  Context, Tools, component_labels, component_name, selector_labels,
}
use supabase_kubernetes.Defaults.Images.{default_meta_image, pull_if_not_present}
use supabase_kubernetes.Defaults.Project.{keys_secret_name}
use supabase_kubernetes.Defaults.Shapes.{
  container_port, from_int, http_probe, pod_template, probe, tcp_port,
}
use supabase_kubernetes.Go.GoMap.{GoMap}
use supabase_kubernetes.Go.Outcome.{Outcome, ok}
use supabase_kubernetes.Go.Strconv.{itoa}
use supabase_kubernetes.Helper.Env.{env_var, env_var_from_secret}
use supabase_kubernetes.Helper.Env.Merge.{merge_env_vars}
use supabase_kubernetes.Kube.Core.{Service}
use supabase_kubernetes.Kube.Meta.{object_meta}
use supabase_kubernetes.Kube.Pod.{Container, EnvVar, Handler}
use supabase_kubernetes.Kube.Workload.{Deployment}
use supabase_kubernetes.Prelude.{List, Option, String, [], none, some, ℕ, ◌∷◌}
use supabase_kubernetes.Reconciler.Mutate.Pods.{blank_container}

abbrev pub default_meta_port : ℕ
default_meta_port = 8080

unfoldable pub meta_labels : Tools → Context → GoMap String
meta_labels t ctx = component_labels t ctx "Meta" "meta" "meta" "meta"

unfoldable pub meta_selector_labels : Tools → Context → GoMap String
meta_selector_labels t ctx = selector_labels t ctx "Meta" "meta" "meta" "meta"

unfoldable pub meta_service_name : Tools → Context → String
meta_service_name t ctx = component_name t ctx "Meta" "meta"

unfoldable pub meta_deployment_name : Tools → Context → String
meta_deployment_name t ctx = component_name t ctx "Meta" "meta"

unfoldable pub meta_service : Tools → Context → Outcome (Option Service)
meta_service t ctx = elim ctx.spec.meta [
  | none ↦ ok none
  | some meta ↦
      built_service t
        (object_meta (meta_service_name t ctx) ctx.project.meta.namespace (meta_labels t ctx))
        (meta_selector_labels t ctx)
        (tcp_port "meta" default_meta_port (from_int default_meta_port) ∷ []) meta.service
]

unfoldable pub build_meta_env_vars : Context → MetaSpec → ResolvedDatabase → List EnvVar
build_meta_env_vars ctx meta db =
    merge_env_vars
      (env_var "PG_META_PORT" (itoa default_meta_port)
        ∷ env_var "PG_META_DB_HOST" db.host
        ∷ env_var "PG_META_DB_PORT" (itoa db.port)
        ∷ env_var "PG_META_DB_NAME" db.db_name
        ∷ env_var "PG_META_DB_USER" "postgres"
        ∷ password_env_var "PG_META_DB_PASSWORD" db
        ∷ env_var_from_secret "CRYPTO_KEY" (keys_secret_name ctx.project) "crypto-key"
        ∷ [])
      meta.config

unfoldable pub meta_probe_handler : Handler
meta_probe_handler = http_probe "/health" (from_int default_meta_port) "HTTP"

-- the container with its image, pull policy, ports and probes
unfoldable pub build_meta_container : List EnvVar → Container
unfolding meta_probe_handler
build_meta_container env = record (blank_container "meta") {
  image = default_meta_image;
  image_pull_policy = pull_if_not_present;
  env = env;
  ports = container_port "meta" default_meta_port "TCP" ∷ [];
  liveness_probe = some (probe meta_probe_handler 5 5 5 3);
  readiness_probe = some (probe meta_probe_handler 5 5 5 3);
  startup_probe = some (probe meta_probe_handler 5 5 5 10);
}

unfoldable pub meta_deployment : Tools → Context → ResolvedDatabase → Outcome (Option Deployment)
meta_deployment t ctx db = elim ctx.spec.meta [
  | none ↦ ok none
  | some meta ↦
      built_deployment t
        (object_meta (meta_deployment_name t ctx) ctx.project.meta.namespace (meta_labels t ctx))
        (replicas_or_one meta.replicas) (meta_selector_labels t ctx)
        (pod_template (meta_labels t ctx)
          (build_meta_container (build_meta_env_vars ctx meta db) ∷ []) [])
        meta.pod
]
