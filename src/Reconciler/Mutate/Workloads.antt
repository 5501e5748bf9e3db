-- ===== src/Reconciler/Mutate/Workloads.antt =====
-- MutateStatefulSet, MutateDeployment, MutateJob and MutateDaemonSet
pub mod Laws
use supabase_kubernetes.Go.Outcome.{Outcome, ok}
use supabase_kubernetes.Go.GoMap.{GoMap, made, copied}
use supabase_kubernetes.Kube.Meta.{ObjectMeta}
use supabase_kubernetes.Kube.Workload.{StatefulSet, Deployment, Job, DaemonSet}
use supabase_kubernetes.Reconciler.Mutate.Pods.{merge_pod_template_spec}
use supabase_kubernetes.Reconciler.Mutate.Simple.{merge_meta}
use supabase_kubernetes.Prelude.{String, none}

unfoldable pub mutate_stateful_set : StatefulSet → StatefulSet → Outcome StatefulSet
mutate_stateful_set existing desired = ok (record existing {
  spec = record existing.spec {
    replicas = desired.spec.replicas;
    selector = desired.spec.selector;
    template = merge_pod_template_spec existing.spec.template desired.spec.template;
    volume_claim_templates = desired.spec.volume_claim_templates;
    service_name = desired.spec.service_name;
    pod_management_policy = desired.spec.pod_management_policy;
  };
  meta = merge_meta existing.meta desired.meta;
})

unfoldable pub mutate_deployment : Deployment → Deployment → Outcome Deployment
mutate_deployment existing desired = ok (record existing {
  spec = record existing.spec {
    replicas = desired.spec.replicas;
    selector = desired.spec.selector;
    template = merge_pod_template_spec existing.spec.template desired.spec.template;
  };
  meta = merge_meta existing.meta desired.meta;
})

-- The generated labels of the pod template, with the desired ones over them.
unfoldable pub template_labels : GoMap String → GoMap String → GoMap String
template_labels existing desired = made (copied (copied (λ _. none) existing) desired)

unfoldable pub mutate_job : Job → Job → Outcome Job
unfolding template_labels
mutate_job existing desired = ok (record existing {
  spec = record desired.spec {
    selector = existing.spec.selector;
    template = record desired.spec.template {
      meta = record desired.spec.template.meta {
        labels =
            template_labels existing.spec.template.meta.labels desired.spec.template.meta.labels;
      };
    };
  };
  meta = merge_meta existing.meta desired.meta;
})

unfoldable pub mutate_daemon_set : DaemonSet → DaemonSet → Outcome DaemonSet
mutate_daemon_set existing desired = ok (record existing {
  spec = record existing.spec {
    selector = desired.spec.selector;
    template = merge_pod_template_spec existing.spec.template desired.spec.template;
  };
  meta = merge_meta existing.meta desired.meta;
})
