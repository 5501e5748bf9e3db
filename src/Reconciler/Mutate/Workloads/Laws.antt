-- ===== src/Reconciler/Mutate/Workloads/Laws.antt =====
-- A second run of a workload's mutation, and the generated fields of a Job.
use supabase_kubernetes.Go.GoMap.{GoMap, index, made}
use supabase_kubernetes.Go.Outcome.{ok}
use supabase_kubernetes.Kube.Workload.{DaemonSet, Deployment, Job, StatefulSet}
use supabase_kubernetes.Prelude.{String, ap, arith, fun_ext, refl, ◌≡◌}
use supabase_kubernetes.Reconciler.Mutate.Pods.Laws.{
  HasDistinctContainers, merge_pod_template_spec_idem,
}
use supabase_kubernetes.Reconciler.Mutate.Workloads.{
  mutate_daemon_set, mutate_deployment, mutate_job, mutate_stateful_set, template_labels,
}
use supabase_kubernetes.Reconciler.Mutate.Simple.{merge_meta}
use supabase_kubernetes.Reconciler.StringMap.{
  index-merge_string_maps, merge_string_maps_idem, preferred,
}

-- A second run of MutateDeployment, with the same desired Deployment of distinct container names,
-- changes nothing.
pub mutate_deployment_idem :
    (existing desired mutated : Deployment)
    → HasDistinctContainers desired.spec.template
    → mutate_deployment existing desired ≡ ok mutated
    → mutate_deployment mutated desired ≡ ok mutated
unfolding mutate_deployment
mutate_deployment_idem e d m h r = ground (
  arith,
  merge_pod_template_spec_idem e.spec.template d.spec.template h,
  merge_string_maps_idem e.meta.annotations d.meta.annotations,
)

-- A second run of MutateStatefulSet, with the same desired StatefulSet of distinct container names,
-- changes nothing.
pub mutate_stateful_set_idem :
    (existing desired mutated : StatefulSet)
    → HasDistinctContainers desired.spec.template
    → mutate_stateful_set existing desired ≡ ok mutated
    → mutate_stateful_set mutated desired ≡ ok mutated
unfolding mutate_stateful_set
mutate_stateful_set_idem e d m h r = ground (
  arith,
  merge_pod_template_spec_idem e.spec.template d.spec.template h,
  merge_string_maps_idem e.meta.annotations d.meta.annotations,
)

-- A second run of MutateDaemonSet, with the same desired DaemonSet of distinct container names,
-- changes nothing.
pub mutate_daemon_set_idem :
    (existing desired mutated : DaemonSet)
    → HasDistinctContainers desired.spec.template
    → mutate_daemon_set existing desired ≡ ok mutated
    → mutate_daemon_set mutated desired ≡ ok mutated
unfolding mutate_daemon_set
mutate_daemon_set_idem e d m h r = ground (
  arith,
  merge_pod_template_spec_idem e.spec.template d.spec.template h,
  merge_string_maps_idem e.meta.annotations d.meta.annotations,
)

template_labels_idem :
    (existing desired : GoMap String)
    → template_labels (template_labels existing desired) desired ≡ template_labels existing desired
unfolding template_labels
template_labels_idem existing desired = ap made (fun_ext λ k. ground arith)

-- What MutateJob makes of a Job of the cluster: what the API server has generated stays, and the rest
-- is the desired Job's.
pub record IsReplaced (existing desired mutated : Job) : Type 0 where
  pub selector : mutated.spec.selector ≡ existing.spec.selector
  pub template_labels :
      (k : String)
      → index mutated.spec.template.meta.labels k
        ≡ preferred
            (index desired.spec.template.meta.labels k)
            (index existing.spec.template.meta.labels k)
  -- the rest of the spec: the desired one, but for these two fields
  pub spec : mutated.spec ≡ record desired.spec {
    selector = mutated.spec.selector;
    template = record desired.spec.template {
      meta = record desired.spec.template.meta { labels = mutated.spec.template.meta.labels };
    };
  }
  pub labels : mutated.meta.labels ≡ desired.meta.labels
  pub annotations :
      (k : String)
      → index mutated.meta.annotations k
        ≡ preferred (index desired.meta.annotations k) (index existing.meta.annotations k)
  -- the rest of the metadata, and the status: those of the Job of the cluster
  pub meta : mutated.meta ≡ record existing.meta {
    labels = mutated.meta.labels;
    annotations = mutated.meta.annotations;
  }
  pub status : mutated.status ≡ existing.status

-- MutateJob never fails. It keeps the selector of the Job of the cluster and each of its template
-- labels and annotations whose key the desired Job does not set, takes the labels and all else of
-- the spec from the desired Job, leaves the rest of the metadata and the status alone, and a second
-- run with the same desired Job changes nothing.
pub mutate_job_lem :
    (existing desired : Job)
    → (mutated : Job) × (mutate_job existing desired ≡ ok mutated)
      × IsReplaced existing desired mutated
      × (mutate_job mutated desired ≡ ok mutated)
unfolding mutate_job
mutate_job_lem e d =
    let mutated : Job = record e {
      spec = record d.spec {
        selector = e.spec.selector;
        template = record d.spec.template {
          meta = record d.spec.template.meta {
            labels = template_labels e.spec.template.meta.labels d.spec.template.meta.labels;
          };
        };
      };
      meta = merge_meta e.meta d.meta;
    } in
    (
      mutated,
      refl,
      record {
        selector = refl;
        template_labels = λ k. unfold template_labels in ground arith;
        spec = refl;
        labels = refl;
        annotations = λ k. index-merge_string_maps e.meta.annotations d.meta.annotations k;
        meta = refl;
        status = refl;
      },
      ground (
        arith,
        template_labels_idem e.spec.template.meta.labels d.spec.template.meta.labels,
        merge_string_maps_idem e.meta.annotations d.meta.annotations,
      ),
    )
