-- ===== src/Tests/Workloads.antt =====
-- The theorems on pods and workloads at concrete objects.
use supabase_kubernetes.Api.Common.{ServiceTemplate}
use supabase_kubernetes.Defaults.Assets.{job_pod}
use supabase_kubernetes.Go.GoMap.{nil}
use supabase_kubernetes.Go.Outcome.{ok}
use supabase_kubernetes.Helper.Overlay.{Patching, omit_nulls, overlay_service}
use supabase_kubernetes.Helper.Overlay.Laws.{overlay_service_keeps_key}
use supabase_kubernetes.Kube.Core.{Service}
use supabase_kubernetes.Kube.Meta.{LabelSelector, object_meta}
use supabase_kubernetes.Kube.Pod.{Container, PodTemplateSpec}
use supabase_kubernetes.Kube.Workload.{DaemonSet, Deployment, Job, StatefulSet}
use supabase_kubernetes.Prelude.{List, String, [], none, refl, some, ◌∷◌, ◌≡◌}
use supabase_kubernetes.Reconciler.Mutate.Pods.{
  blank_container, existing_by_name, merge_container, merge_containers, merge_named, merge_pod_spec,
  merge_pod_template_spec, merge_probe,
}
use supabase_kubernetes.Reconciler.Mutate.Pods.Laws.{HasDistinctContainers}
use supabase_kubernetes.Reconciler.Mutate.Workloads.{
  mutate_daemon_set, mutate_deployment, mutate_job, mutate_stateful_set, template_labels,
}
use supabase_kubernetes.Reconciler.Mutate.Workloads.Laws.{IsReplaced, mutate_job_lem}
use supabase_kubernetes.Reconciler.StringMap.{merge_string_maps}
use supabase_kubernetes.Tests.Objects.{json_text, migration_job_with}
use supabase_kubernetes.Tests.Services.{asked, service_of}

abbrev image : String → String → Container
image name version = record (blank_container name) { image = version }

-- with a field that the API server has filled in
abbrev completed : String → String → Container
completed name version = record (image name version) {
  termination_message_path = "/dev/termination-log";
}

abbrev pod_of : List Container → PodTemplateSpec
pod_of containers =
    let t = job_pod nil (blank_container "x") [] in
    record t { spec = record t.spec { containers = containers } }

abbrev old_pod : PodTemplateSpec
old_pod = pod_of (completed "db" "v1" ∷ [])

abbrev new_pod : PodTemplateSpec
new_pod = pod_of (image "db" "v2" ∷ image "proxy" "v1" ∷ [])

distinct : HasDistinctContainers new_pod
distinct = record { init_containers = tt; containers = ((λ e. cc, tt), (tt, tt)) }

abbrev deployment_of : PodTemplateSpec → Deployment
deployment_of template = record {
  meta = object_meta "d" "ns" nil;
  spec = record {
    replicas = some 1;
    selector = none;
    template = template;
    strategy = "";
    rest = "";
  };
  status = record { observed_generation = 0; ready_replicas = 0; updated_replicas = 0 };
}

abbrev stateful_set_of : PodTemplateSpec → StatefulSet
stateful_set_of template = record {
  meta = object_meta "s" "ns" nil;
  spec = record {
    replicas = some 1;
    selector = none;
    template = template;
    volume_claim_templates = "";
    service_name = "s";
    pod_management_policy = "";
    rest = "";
  };
  status = record {
    observed_generation = 0;
    ready_replicas = 0;
    current_revision = "";
    update_revision = "";
  };
}

abbrev daemon_set_of : PodTemplateSpec → DaemonSet
daemon_set_of template = record {
  meta = object_meta "v" "ns" nil;
  spec = record { selector = none; template = template; rest = "" };
  status = record {
    observed_generation = 0;
    desired_number_scheduled = 0;
    updated_number_scheduled = 0;
    number_available = 0;
    number_misscheduled = 0;
  };
}

-- The container of the cluster keeps its path, and the new one has none yet.
abbrev merged_pod : PodTemplateSpec
merged_pod = pod_of (completed "db" "v2" ∷ image "proxy" "v1" ∷ [])

deployment_run :
    mutate_deployment (deployment_of old_pod) (deployment_of new_pod)
    ≡ ok (deployment_of merged_pod)
unfolding mutate_deployment merge_pod_template_spec merge_pod_spec merge_containers merge_named
    existing_by_name merge_container merge_probe merge_string_maps
deployment_run = refl

stateful_set_run :
    mutate_stateful_set (stateful_set_of old_pod) (stateful_set_of new_pod)
    ≡ ok (stateful_set_of merged_pod)
unfolding mutate_stateful_set merge_pod_template_spec merge_pod_spec merge_containers merge_named
    existing_by_name merge_container merge_probe merge_string_maps
stateful_set_run = refl

daemon_set_run :
    mutate_daemon_set (daemon_set_of old_pod) (daemon_set_of new_pod)
    ≡ ok (daemon_set_of merged_pod)
unfolding mutate_daemon_set merge_pod_template_spec merge_pod_spec merge_containers merge_named
    existing_by_name merge_container merge_probe merge_string_maps
daemon_set_run = refl

abbrev uid_selector : LabelSelector
uid_selector = record { match_labels = nil; rest = "uid in (u1)" }

abbrev stored_job : Job
stored_job = record (migration_job_with 0 0) {
  spec = record (migration_job_with 0 0).spec { selector = some uid_selector };
}

abbrev mutated_job : Job
mutated_job = record stored_job {
  spec = record stored_job.spec {
    template = record stored_job.spec.template {
      meta = record stored_job.spec.template.meta { labels = template_labels nil nil };
    };
  };
}

job_run : mutate_job stored_job (migration_job_with 0 0) ≡ ok mutated_job
unfolding mutate_job merge_string_maps
job_run = refl

mutate_job_example :
    (mutated : Job) × (mutate_job stored_job (migration_job_with 0 0) ≡ ok mutated)
    × IsReplaced stored_job (migration_job_with 0 0) mutated
    × (mutate_job mutated (migration_job_with 0 0) ≡ ok mutated)
mutate_job_example = mutate_job_lem stored_job (migration_job_with 0 0)

abbrev service_patches : Patching Service
service_patches = record {
  marshal = λ s. ok s.meta.name;
  unmarshal = λ s. ok (record { meta = object_meta s "elsewhere" nil; spec = asked; rest = "" });
  strategic_merge_patch = λ base user. ok user;
}

abbrev template : ServiceTemplate
template = record { meta = object_meta "mine" "elsewhere" nil; spec = asked }

overlay_run :
    overlay_service json_text service_patches (service_of asked) (some template)
    ≡ ok (service_of asked)
unfolding overlay_service omit_nulls
overlay_run = refl

overlay_service_keeps_key_example :
    ((service_of asked).meta.name ≡ "s") × ((service_of asked).meta.namespace ≡ "ns")
overlay_service_keeps_key_example =
    overlay_service_keeps_key json_text service_patches (service_of asked) (service_of asked)
      (some template) overlay_run
