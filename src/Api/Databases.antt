-- ===== src/Api/Databases.antt =====
-- api/v1alpha1/singledatabase_types.go
use supabase_kubernetes.Api.Common.{ResolvedDatabase, ServiceTemplate}
use supabase_kubernetes.Kube.Condition.{Condition, Conditioned}
use supabase_kubernetes.Kube.Core.{PersistentVolumeClaimSpec}
use supabase_kubernetes.Kube.Meta.{ObjectMeta}
use supabase_kubernetes.Kube.Pod.{PodTemplateSpec}
use supabase_kubernetes.Prelude.{List, Option, refl}

pub record SingleDatabaseSpec : Type 0 where
  pub pod : Option PodTemplateSpec
  pub service : Option ServiceTemplate
  pub storage : Option PersistentVolumeClaimSpec

pub record SingleDatabaseStatus : Type 0 where
  pub conditions : List Condition
  pub resolved_database : Option ResolvedDatabase

pub record SingleDatabase : Type 0 where
  pub meta : ObjectMeta
  pub spec : SingleDatabaseSpec
  pub status : SingleDatabaseStatus

-- GetConditions, and the Status field that UpdateStatus copies
abbrev pub single_database_conditioned : Conditioned SingleDatabase
single_database_conditioned = record {
  meta = λ t. t.meta;
  conditions = λ t. t.status.conditions;
  with_conditions = λ cs t. record t { status = record t.status { conditions = cs } };
  copy_status = λ from to. record to { status = from.status };
  conditions-with_conditions = λ cs t. refl;
  conditions-copy_status = λ from to. refl;
}
