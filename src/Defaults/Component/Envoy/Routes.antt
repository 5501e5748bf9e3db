-- ===== src/Defaults/Component/Envoy/Routes.antt =====
-- internal/defaults/envoy/configmap.go: the routes to the components, rendered from templates
use supabase_kubernetes.Defaults.Component.Auth.{auth_service_name, default_auth_port}
use supabase_kubernetes.Defaults.Component.EdgeRuntime.{
  default_functions_port, functions_service_name,
}
use supabase_kubernetes.Defaults.Component.Envoy.{envoy_config_map_name, envoy_labels}
use supabase_kubernetes.Defaults.Component.Meta.{default_meta_port, meta_service_name}
use supabase_kubernetes.Defaults.Component.Realtime.{default_realtime_port, realtime_service_name}
use supabase_kubernetes.Defaults.Component.Rest.{default_rest_port, rest_service_name}
use supabase_kubernetes.Defaults.Component.Storage.{default_storage_port, storage_service_name}
use supabase_kubernetes.Defaults.Component.Studio.{default_studio_port, studio_service_name}
use supabase_kubernetes.Defaults.Context.{Context, Tools}
use supabase_kubernetes.Go.GoMap.{GoMap, literal}
use supabase_kubernetes.Go.Outcome.{Outcome, ok}
use supabase_kubernetes.Go.Pure.{wrapped, ◌>>=◌}
use supabase_kubernetes.Helper.ClusterDomain.{service_fqdn}
use supabase_kubernetes.Kube.Core.{ConfigMap}
use supabase_kubernetes.Kube.Meta.{Opaque, object_meta}
use supabase_kubernetes.Prelude.{Bool, String, [], concat, is_some, ℕ, ◌∷◌}

-- envoyCluster
pub record EnvoyCluster : Type 0 where
  pub enabled : Bool
  pub address : String
  pub port : ℕ

-- envoyTemplateData
pub record EnvoyTemplateData : Type 0 where
  pub auth_cluster : EnvoyCluster
  pub rest_cluster : EnvoyCluster
  pub realtime_cluster : EnvoyCluster
  pub functions_cluster : EnvoyCluster
  pub storage_cluster : EnvoyCluster
  pub meta_cluster : EnvoyCluster
  pub studio_cluster : EnvoyCluster
  pub realtime_host : String

-- text/template on data of one type: template.New(name).Parse(text), and Execute
pub record TextTemplate (D : Type 0) : Type 0 where
  pub parse : (name tmpl : String) → Outcome Opaque
  pub execute : Opaque → D → Outcome String

-- a cluster that is enabled where its component is part of the context
unfoldable pub envoy_cluster : Tools → Context → Bool → String → ℕ → EnvoyCluster
envoy_cluster t ctx enabled service_name port = record {
  enabled = enabled;
  address = service_fqdn t.cluster_domain service_name ctx.project.meta.namespace;
  port = port;
}

-- buildEnvoyTemplateData and the functions that build the clusters
unfoldable pub build_envoy_template_data : Tools → Context → EnvoyTemplateData
unfolding envoy_cluster
build_envoy_template_data t ctx = record {
  auth_cluster =
      envoy_cluster t ctx (is_some ctx.spec.auth) (auth_service_name t ctx) default_auth_port;
  rest_cluster =
      envoy_cluster t ctx (is_some ctx.spec.rest) (rest_service_name t ctx) default_rest_port;
  realtime_cluster =
      envoy_cluster t ctx (is_some ctx.spec.realtime) (realtime_service_name t ctx)
        default_realtime_port;
  functions_cluster =
      envoy_cluster t ctx (is_some ctx.spec.edge_runtime) (functions_service_name t ctx)
        default_functions_port;
  storage_cluster =
      envoy_cluster t ctx (is_some ctx.spec.storage) (storage_service_name t ctx)
        default_storage_port;
  meta_cluster =
      envoy_cluster t ctx (is_some ctx.spec.meta) (meta_service_name t ctx) default_meta_port;
  studio_cluster =
      envoy_cluster t ctx (is_some ctx.spec.studio) (studio_service_name t ctx) default_studio_port;
  realtime_host = "realtime-dev.supabase-realtime";
}

unfoldable pub render_envoy_template :
    TextTemplate EnvoyTemplateData → (name tmpl : String) → EnvoyTemplateData → Outcome String
render_envoy_template r name tmpl given = do
  parsed ← wrapped (concat ("parsing " ∷ name ∷ " template" ∷ [])) (r.parse name tmpl)
  wrapped (concat ("executing " ∷ name ∷ " template" ∷ [])) (r.execute parsed given)

unfoldable pub render_envoy_config_map_data :
    TextTemplate EnvoyTemplateData → Tools → Context → Outcome (GoMap String)
unfolding render_envoy_template build_envoy_template_data
render_envoy_config_map_data r t ctx = do
  let given = build_envoy_template_data t ctx
  cds ←
      wrapped "rendering cds template"
        (render_envoy_template r "cds" t.assets.envoy_cds_template given)
  lds ←
      wrapped "rendering lds template"
        (render_envoy_template r "lds" t.assets.envoy_lds_template given)
  ok (
      literal (
        ("envoy.yaml", t.assets.envoy_base_template)
        ∷ ("docker-entrypoint.sh", t.assets.envoy_entrypoint)
        ∷ ("cds.yaml", cds)
        ∷ ("lds.template.yaml", lds)
        ∷ []))

-- EnvoyConfigMap
unfoldable pub envoy_config_map :
    TextTemplate EnvoyTemplateData → Tools → Context → Outcome ConfigMap
unfolding render_envoy_config_map_data
envoy_config_map r t ctx = do
  entries ← wrapped "rendering envoy config" (render_envoy_config_map_data r t ctx)
  ok (record {
    meta =
        object_meta (envoy_config_map_name t ctx) ctx.project.meta.namespace (envoy_labels t ctx);
    data_map = entries;
    binary_data = "";
    rest = "";
  })
