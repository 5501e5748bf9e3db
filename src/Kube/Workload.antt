-- ===== src/Kube/Workload.antt =====
-- The workloads of the apps and batch groups. Counts are natural numbers: the API server admits
-- no negative ones.
use supabase_kubernetes.Kube.Meta.{LabelSelector, ObjectMeta, Opaque}
use supabase_kubernetes.Kube.Pod.{PodTemplateSpec}
use supabase_kubernetes.Prelude.{Option, String, ℕ}

pub record DeploymentSpec : Type 0 where
  pub replicas : Option ℕ
  pub selector : Option LabelSelector
  pub template : PodTemplateSpec
  -- Strategy.Type
  pub strategy : String
  pub rest : Opaque

pub record DeploymentStatus : Type 0 where
  pub observed_generation : ℕ
  pub ready_replicas : ℕ
  pub updated_replicas : ℕ

pub record Deployment : Type 0 where
  pub meta : ObjectMeta
  pub spec : DeploymentSpec
  pub status : DeploymentStatus

pub record StatefulSetSpec : Type 0 where
  pub replicas : Option ℕ
  pub selector : Option LabelSelector
  pub template : PodTemplateSpec
  pub volume_claim_templates : Opaque
  pub service_name : String
  pub pod_management_policy : String
  pub rest : Opaque

pub record StatefulSetStatus : Type 0 where
  pub observed_generation : ℕ
  pub ready_replicas : ℕ
  pub current_revision : String
  pub update_revision : String

pub record StatefulSet : Type 0 where
  pub meta : ObjectMeta
  pub spec : StatefulSetSpec
  pub status : StatefulSetStatus

pub record DaemonSetSpec : Type 0 where
  pub selector : Option LabelSelector
  pub template : PodTemplateSpec
  pub rest : Opaque

pub record DaemonSetStatus : Type 0 where
  pub observed_generation : ℕ
  pub desired_number_scheduled : ℕ
  pub updated_number_scheduled : ℕ
  pub number_available : ℕ
  pub number_misscheduled : ℕ

pub record DaemonSet : Type 0 where
  pub meta : ObjectMeta
  pub spec : DaemonSetSpec
  pub status : DaemonSetStatus

pub record JobSpec : Type 0 where
  pub selector : Option LabelSelector
  pub template : PodTemplateSpec
  pub backoff_limit : Option ℕ
  pub ttl_seconds_after_finished : Option ℕ
  pub rest : Opaque

pub record JobStatus : Type 0 where
  pub succeeded : ℕ
  pub failed : ℕ

pub record Job : Type 0 where
  pub meta : ObjectMeta
  pub spec : JobSpec
  pub status : JobStatus
