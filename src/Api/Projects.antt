-- ===== src/Api/Projects.antt =====
-- api/v1alpha1/project_types.go
use supabase_kubernetes.Api.Common.{DatabaseRef}
use supabase_kubernetes.Kube.Condition.{Condition, Conditioned}
use supabase_kubernetes.Kube.Meta.{ObjectMeta}
use supabase_kubernetes.Kube.Pod.{PodTemplateSpec}
use supabase_kubernetes.Prelude.{Bool, List, Option, String, refl, ℕ}

pub record ProjectMigrationsSpec : Type 0 where
  pub enable : Option Bool
  pub pod : Option PodTemplateSpec

pub record ProjectPostgrestSpec : Type 0 where
  pub schemas : Option String
  pub max_rows : Option ℕ
  pub extra_search_path : Option String

pub record ProjectSpec : Type 0 where
  pub jwt_exp_sec : Option ℕ
  pub public_url : String
  pub database_ref : DatabaseRef
  pub migrations : Option ProjectMigrationsSpec
  pub postgrest : Option ProjectPostgrestSpec

pub record ProjectStatus : Type 0 where
  pub conditions : List Condition
  pub jwt_sync_hash : String
  pub password_sync_hash : String

pub record Project : Type 0 where
  pub meta : ObjectMeta
  pub spec : ProjectSpec
  pub status : ProjectStatus

-- GetConditions, and the Status field that UpdateStatus copies
abbrev pub project_conditioned : Conditioned Project
project_conditioned = record {
  meta = λ t. t.meta;
  conditions = λ t. t.status.conditions;
  with_conditions = λ cs t. record t { status = record t.status { conditions = cs } };
  copy_status = λ from to. record to { status = from.status };
  conditions-with_conditions = λ cs t. refl;
  conditions-copy_status = λ from to. refl;
}
