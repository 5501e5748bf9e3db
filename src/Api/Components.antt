-- ===== src/Api/Components.antt =====
-- api/v1alpha1: the components of a Project. Their types have one shape, so that they share records.
use supabase_kubernetes.Api.Common.{ServiceTemplate}
use supabase_kubernetes.Kube.Condition.{Condition, Conditioned}
use supabase_kubernetes.Kube.Core.{PersistentVolumeClaimSpec}
use supabase_kubernetes.Kube.Meta.{ObjectMeta}
use supabase_kubernetes.Kube.Pod.{EnvVar, PodTemplateSpec}
use supabase_kubernetes.Prelude.{List, Option, String, refl, ℕ}

-- AnalyticsSpec, AuthSpec, EdgeRuntimeSpec, EnvoySpec, MetaSpec, RealtimeSpec and RestSpec
pub record ComponentSpec : Type 0 where
  -- ProjectRef.Name
  pub project_ref : String
  pub pod : Option PodTemplateSpec
  pub replicas : Option ℕ
  pub service : Option ServiceTemplate
  pub config : List EnvVar

abbrev pub AnalyticsSpec : Type 0
AnalyticsSpec = ComponentSpec

abbrev pub AuthSpec : Type 0
AuthSpec = ComponentSpec

abbrev pub EdgeRuntimeSpec : Type 0
EdgeRuntimeSpec = ComponentSpec

abbrev pub EnvoySpec : Type 0
EnvoySpec = ComponentSpec

abbrev pub MetaSpec : Type 0
MetaSpec = ComponentSpec

abbrev pub RealtimeSpec : Type 0
RealtimeSpec = ComponentSpec

abbrev pub RestSpec : Type 0
RestSpec = ComponentSpec

pub record StorageSpec : Type 0 where
  pub project_ref : String
  pub pod : Option PodTemplateSpec
  pub replicas : Option ℕ
  pub service : Option ServiceTemplate
  pub config : List EnvVar
  pub storage : Option PersistentVolumeClaimSpec

abbrev pub StudioSpec : Type 0
StudioSpec = StorageSpec

pub record SupavisorSpec : Type 0 where
  pub project_ref : String
  pub pod : Option PodTemplateSpec
  pub service : Option ServiceTemplate
  pub config : List EnvVar

pub record VectorSpec : Type 0 where
  pub project_ref : String
  pub pod : Option PodTemplateSpec
  pub config : List EnvVar

-- A component with its metadata and the conditions of its status.
pub record Resource (S : Type 0) : Type 0 where
  pub meta : ObjectMeta
  pub spec : S
  pub conditions : List Condition

-- GetConditions, and the Status field that UpdateStatus copies
abbrev pub resource_conditioned : {S : Type 0} → Conditioned (Resource S)
resource_conditioned = record {
  meta = λ t. t.meta;
  conditions = λ t. t.conditions;
  with_conditions = λ cs t. record t { conditions = cs };
  copy_status = λ from to. record to { conditions = from.conditions };
  conditions-with_conditions = λ cs t. refl;
  conditions-copy_status = λ from to. refl;
}
