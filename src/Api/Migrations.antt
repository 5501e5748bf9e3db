-- ===== src/Api/Migrations.antt =====
-- api/v1alpha1/migration_types.go
use supabase_kubernetes.Api.Common.{DatabaseRef}
use supabase_kubernetes.Kube.Condition.{Condition, Conditioned}
use supabase_kubernetes.Kube.Meta.{Object, ObjectMeta, Opaque}
use supabase_kubernetes.Kube.Pod.{PodTemplateSpec}
use supabase_kubernetes.Prelude.{List, Option, String, refl}

pub record MigrationEntry : Type 0 where
  pub name : String
  pub sql : String

pub record MigrationSpec : Type 0 where
  pub pod : Option PodTemplateSpec
  pub database_ref : DatabaseRef
  pub migrations : List MigrationEntry

pub record MigrationStatus : Type 0 where
  pub conditions : List Condition
  pub applied_hash : String
  pub applied_at : Option Opaque

pub record Migration : Type 0 where
  pub meta : ObjectMeta
  pub spec : MigrationSpec
  pub status : MigrationStatus

-- GetConditions, and the Status field that UpdateStatus copies
abbrev pub migration_conditioned : Conditioned Migration
migration_conditioned = record {
  meta = λ t. t.meta;
  conditions = λ t. t.status.conditions;
  with_conditions = λ cs t. record t { status = record t.status { conditions = cs } };
  copy_status = λ from to. record to { status = from.status };
  conditions-with_conditions = λ cs t. refl;
  conditions-copy_status = λ from to. refl;
}

abbrev pub migration_object : Object Migration
migration_object = record {
  meta = λ t. t.meta;
  with_meta = λ m t. record t { meta = m };
  meta-with_meta = λ m t. refl;
}
