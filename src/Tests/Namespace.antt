-- ===== src/Tests/Namespace.antt =====
-- A namespace with components and workloads.
use supabase_kubernetes.Api.Databases.{SingleDatabase}
use supabase_kubernetes.Api.Projects.{Project}
use supabase_kubernetes.Controller.Component.{Component}
use supabase_kubernetes.Defaults.Assets.{job_pod}
use supabase_kubernetes.Go.Exec.{pure}
use supabase_kubernetes.Go.GoMap.{nil}
use supabase_kubernetes.Go.Outcome.{Outcome, err, ok}
use supabase_kubernetes.Kube.Client.{Client}
use supabase_kubernetes.Kube.Condition.{Condition, Conditioned}
use supabase_kubernetes.Kube.Meta.{ObjectMeta, object_meta}
use supabase_kubernetes.Kube.Pod.{PodTemplateSpec}
use supabase_kubernetes.Kube.Workload.{DaemonSet, Deployment, StatefulSet}
use supabase_kubernetes.Prelude.{
  List, Option, String, [], if◌then◌else◌, none, refl, some, true, ◌&&◌, ◌=s◌, ◌∷◌,
}
use supabase_kubernetes.Reconciler.Mutate.Pods.{blank_container}
use supabase_kubernetes.Tests.Objects.{ready, main_ref, single_database}
use supabase_kubernetes.Tests.World.{conditions, no_object, plain_machinery, slot_client}

-- A component with the name of its Project.
pub record Part : Type 0 where
  pub meta : ObjectMeta
  pub project_name : String
  pub conditions : List Condition

pub record Namespace : Type 0 where
  pub parts : List Part
  pub project : Option Project
  pub database : Option SingleDatabase
  pub deployment : Option Deployment
  pub stateful_set : Option StatefulSet
  pub daemon_set : Option DaemonSet

abbrev pub part_conditioned : Conditioned Part
part_conditioned = record {
  meta = λ t. t.meta;
  conditions = λ t. t.conditions;
  with_conditions = λ cs t. record t { conditions = cs };
  copy_status = λ from to. record to { conditions = from.conditions };
  conditions-with_conditions = λ cs t. refl;
  conditions-copy_status = λ from to. refl;
}

abbrev pub find_part : List Part → String → String → Outcome Part
find_part [] namespace name = err no_object
find_part (p ∷ ps) namespace name =
    if (p.meta.namespace =s namespace) && (p.meta.name =s name)
    then ok p
    else find_part ps namespace name

abbrev pub part_client : Client Namespace Part
part_client = record {
  get = λ namespace name w. find_part w.parts namespace name;
  list = λ namespace w. ok w.parts;
  create = λ p. pure tt;
  update = λ p. pure tt;
  update_status = λ p. pure tt;
  delete = λ namespace name. pure tt;
}

abbrev pub component : Component Namespace Part
component = record {
  writer = record {
    machinery = plain_machinery;
    conditions = conditions;
    conditioned = part_conditioned;
    client = part_client;
    same_status = λ a b. true;
  };
  project_ref = λ p. p.project_name;
  kind = "Rest";
  projects = slot_client (λ t. t.meta) (λ w. w.project) (λ t w. record w { project = t });
  databases = slot_client (λ t. t.meta) (λ w. w.database) (λ t w. record w { database = t });
}

abbrev pub part_of : String → String → Part
part_of name project_name = record {
  meta = object_meta name "ns" nil;
  project_name = project_name;
  conditions = [];
}

abbrev pub ready_project_of : Project
ready_project_of = record {
  meta = object_meta "p" "ns" nil;
  spec = record {
    jwt_exp_sec = some 3600;
    public_url = "http://localhost:8000";
    database_ref = main_ref;
    migrations = none;
    postgrest = none;
  };
  status = record { conditions = ready ∷ []; jwt_sync_hash = ""; password_sync_hash = "" };
}

abbrev pub pod : PodTemplateSpec
pod = job_pod nil (blank_container "x") []

abbrev pub namespace_of : List Part → Namespace
namespace_of parts = record {
  parts = parts;
  project = some ready_project_of;
  database = some single_database;
  deployment = some (record {
    meta = record (object_meta "d" "ns" nil) { generation = 2 };
    spec = record { replicas = some 2; selector = none; template = pod; strategy = ""; rest = "" };
    status = record { observed_generation = 2; ready_replicas = 2; updated_replicas = 2 };
  });
  stateful_set = some (record {
    meta = record (object_meta "s" "ns" nil) { generation = 2 };
    spec = record {
      replicas = some 1;
      selector = none;
      template = pod;
      volume_claim_templates = "";
      service_name = "s";
      pod_management_policy = "";
      rest = "";
    };
    status = record {
      observed_generation = 1;
      ready_replicas = 1;
      current_revision = "a";
      update_revision = "a";
    };
  });
  daemon_set = some (record {
    meta = record (object_meta "v" "ns" nil) { generation = 1 };
    spec = record { selector = none; template = pod; rest = "" };
    status = record {
      observed_generation = 1;
      desired_number_scheduled = 3;
      updated_number_scheduled = 3;
      number_available = 3;
      number_misscheduled = 0;
    };
  });
}

-- two components, of two Projects
abbrev pub alone : Namespace
alone = namespace_of (part_of "a" "p" ∷ part_of "b" "q" ∷ [])
