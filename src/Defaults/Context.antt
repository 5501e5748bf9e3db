-- ===== src/Defaults/Context.antt =====
-- internal/defaults/context.go and postgrest.go: what the builders of the components work on.
use supabase_kubernetes.Api.Components.{
  AnalyticsSpec, AuthSpec, EdgeRuntimeSpec, EnvoySpec, MetaSpec, RealtimeSpec, RestSpec,
  StorageSpec, StudioSpec, SupavisorSpec, VectorSpec,
}
use supabase_kubernetes.Api.Projects.{Project, ProjectPostgrestSpec, ProjectSpec}
use supabase_kubernetes.Defaults.Assets.{Assets, Digest}
use supabase_kubernetes.Go.GoMap.{GoMap, find_key, made, text_at, with_entry}
use supabase_kubernetes.Go.Strconv.{itoa}
use supabase_kubernetes.Helper.Env.{env_var}
use supabase_kubernetes.Helper.Name.{resource_name}
use supabase_kubernetes.Helper.Overlay.{JsonText, Patching}
use supabase_kubernetes.Kube.Core.{PersistentVolumeClaimSpec, Service}
use supabase_kubernetes.Kube.Meta.{ObjectMeta}
use supabase_kubernetes.Kube.Pod.{EnvVar, PodTemplateSpec}
use supabase_kubernetes.Prelude.{List, Option, String, [], none, some, ◌∷◌}

-- What the builders take from other packages: JSON and patches, SHA-256, the embedded files, and
-- the cluster domain of the manager's flags.
pub record Tools : Type 0 where
  pub json : JsonText
  pub pods : Patching PodTemplateSpec
  pub services : Patching Service
  pub claims : Patching PersistentVolumeClaimSpec
  pub digest : Digest
  pub assets : Assets
  pub cluster_domain : String

-- The embedded ProjectSpec is a field.
pub record Configuration : Type 0 where
  pub project : ProjectSpec
  pub analytics : Option AnalyticsSpec
  pub vector : Option VectorSpec
  pub auth : Option AuthSpec
  pub rest : Option RestSpec
  pub meta : Option MetaSpec
  pub realtime : Option RealtimeSpec
  pub supavisor : Option SupavisorSpec
  pub storage : Option StorageSpec
  pub studio : Option StudioSpec
  pub envoy : Option EnvoySpec
  pub edge_runtime : Option EdgeRuntimeSpec

-- The map Names is made by NewContext, so that it is never nil, and is seen as a function.
pub record Context : Type 0 where
  pub project : Project
  pub spec : Configuration
  pub names : String → Option String
  pub owner : Option ObjectMeta

unfoldable pub new_context : Project → Context
new_context project = record {
  project = project;
  spec = record {
    project = project.spec;
    analytics = none;
    vector = none;
    auth = none;
    rest = none;
    meta = none;
    realtime = none;
    supavisor = none;
    storage = none;
    studio = none;
    envoy = none;
    edge_runtime = none;
  };
  names = λ k. none;
  owner = none;
}

-- `ctx.Names[key] = name`
abbrev pub with_name : String → String → Context → Context
with_name key name ctx = record ctx { names = with_entry ctx.names key name }

-- `ctx.Names[key]`
abbrev pub name_of : Context → String → String
name_of ctx key = text_at (made ctx.names) key

-- ComponentName of the name of a component
unfoldable pub component_name : Tools → Context → (key suffix : String) → String
component_name t ctx key suffix = resource_name t.digest (name_of ctx key) suffix

unfoldable pub selector_entries :
    Tools → Context → (key suffix name component : String) → String → Option String
unfolding component_name
selector_entries t ctx key suffix name component = find_key (
    ("app.kubernetes.io/name", name)
    ∷ ("app.kubernetes.io/component", component)
    ∷ ("app.kubernetes.io/instance", component_name t ctx key suffix)
    ∷ [])

unfoldable pub selector_labels :
    Tools → Context → (key suffix name component : String) → GoMap String
unfolding selector_entries
selector_labels t ctx key suffix name component =
    made (selector_entries t ctx key suffix name component)

unfoldable pub component_labels :
    Tools → Context → (key suffix name component : String) → GoMap String
unfolding selector_entries
component_labels t ctx key suffix name component = made (
    with_entry (selector_entries t ctx key suffix name component) "app.kubernetes.io/managed-by"
      "supabase-operator")

-- `ptr.Deref(p, default)`
abbrev pub deref {ℓ} : {A : Type ℓ} → Option A → A → A
deref none default = default
deref (some a) default = a

-- the three settings, each with its default where the Project or the setting is missing
abbrev pub blank_postgrest : ProjectPostgrestSpec
blank_postgrest = record { schemas = none; max_rows = none; extra_search_path = none }

unfoldable pub postgrest_env_vars : Option ProjectPostgrestSpec → List EnvVar
postgrest_env_vars given =
    let spec = deref given blank_postgrest in
    env_var "PGRST_DB_SCHEMAS" (deref spec.schemas "public,graphql_public")
    ∷ env_var "PGRST_DB_MAX_ROWS" (itoa (deref spec.max_rows 1000))
    ∷ env_var "PGRST_DB_EXTRA_SEARCH_PATH" (deref spec.extra_search_path "public")
    ∷ []
