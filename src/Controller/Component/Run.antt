-- ===== src/Controller/Component/Run.antt =====
-- How the reconcilers of the components ensure their objects: Ensure of
-- internal/controller/component/resources.go, the reconcile methods that the packages repeat, and
-- the order of a run.
pub mod Ended
pub mod Guards
pub mod Suspended
use supabase_kubernetes.Controller.Common.{ReconcileResult}
use supabase_kubernetes.Controller.Component.{Component, Step, not_ready, proceed, ready, stop}
use supabase_kubernetes.Controller.Component.Stamp.{Encoding, stamp_inputs}
use supabase_kubernetes.Defaults.Component.Analytics.{UrlText}
use supabase_kubernetes.Defaults.Component.Envoy.Routes.{EnvoyTemplateData, TextTemplate}
use supabase_kubernetes.Defaults.Context.{Context, Tools}
use supabase_kubernetes.Go.Exec.{Exec, attempt, lift, pure, raise, reads}
use supabase_kubernetes.Go.GoMap.{GoMap, literal}
use supabase_kubernetes.Go.Outcome.{Outcome, ok, panic}
use supabase_kubernetes.Go.Pure.{wrapped}
use supabase_kubernetes.Helper.Random.{Random}
use supabase_kubernetes.Kube.Client.{Client, Machinery}
use supabase_kubernetes.Kube.Core.{ConfigMap, PersistentVolumeClaim, Secret, Service}
use supabase_kubernetes.Kube.Meta.{Object, ObjectMeta}
use supabase_kubernetes.Kube.Pod.{PodTemplateSpec}
use supabase_kubernetes.Kube.Workload.{Deployment, StatefulSet}
use supabase_kubernetes.Prelude.{Bool, List, Option, String, [], concat, none, some, ◌∷◌}
use supabase_kubernetes.Reconciler.Ensure.{ensure_resource, owner_uid_annotation}
use supabase_kubernetes.Reconciler.Mutate.Pvc.{mutate_pvc}
use supabase_kubernetes.Reconciler.Mutate.Service.{mutate_service}
use supabase_kubernetes.Reconciler.Mutate.Workloads.{mutate_stateful_set}

-- a kind of object that a component owns: its metadata, its client, and DeepEqual
pub record Owned (W T : Type 0) : Type 0 where
  pub object : Object T
  pub client : Client W T
  pub same : T → T → Bool

-- the cluster as the reconcilers see it, with the packages that they use
pub record Cluster (W : Type 0) : Type 0 where
  pub machinery : Machinery W
  pub services : Owned W Service
  pub secrets : Owned W Secret
  pub config_maps : Owned W ConfigMap
  pub claims : Owned W PersistentVolumeClaim
  pub deployments : Owned W Deployment
  pub stateful_sets : Owned W StatefulSet
  pub tools : Tools
  pub random : Random W
  pub urls : UrlText
  pub encode : Encoding
  pub templates : TextTemplate EnvoyTemplateData
  -- the keys of a map, in the order in which Go visits them
  pub keys : GoMap String → List String

-- `if err != nil || !proceed { return result, err }`
abbrev pub by_step : {W A : Type 0} → (A → Exec W ReconcileResult) → Step A → Exec W ReconcileResult
by_step k (proceed a) = k a
by_step k (stop result) = pure result

abbrev pub go_on :
    {W A : Type 0} → Exec W (Step A) → (A → Exec W ReconcileResult) → Exec W ReconcileResult
go_on m k = attempt m raise (by_step k)

module _ {W : Type 0} (k : Cluster W) where
  -- Ensure, whose outcome is only logged; a nil object makes it panic.
  unfoldable pub ensure :
      {T : Type 0}
      → Owned W T
      → (T → T → Outcome T)
      → Option T
      → Option ObjectMeta
      → Exec W (Unit {0})
  ensure o mutate none owner = lift panic
  ensure o mutate (some desired) owner =
      attempt (ensure_resource o.object k.machinery o.client o.same mutate desired owner) raise
        (λ _. pure tt)

  -- `if err != nil { return fmt.Errorf("building <what>: %w", err) }` and Ensure
  unfoldable pub ensure_object :
      {T : Type 0}
      → Owned W T
      → (T → T → Outcome T)
      → String
      → Outcome (Option T)
      → Option ObjectMeta
      → Exec W (Unit {0})
  unfolding ensure
  ensure_object o mutate what built owner =
      attempt (lift (wrapped (concat ("building " ∷ what ∷ [])) built)) raise
        (λ desired. ensure o mutate desired owner)

  -- reconcileService
  unfoldable pub reconcile_service : String → Context → Outcome (Option Service) → Exec W (Unit {0})
  unfolding ensure_object
  reconcile_service what ctx built = ensure_object k.services mutate_service what built ctx.owner

  -- StampInputs and Ensure of a workload; `&workload.Spec.Template` panics at a nil workload.
  unfoldable pub ensure_stamped :
      {T : Type 0}
      → Owned W T
      → (T → T → Outcome T)
      → (T → PodTemplateSpec)
      → (PodTemplateSpec → T → T)
      → Context
      → Option T
      → Exec W (Unit {0})
  unfolding ensure
  ensure_stamped o mutate template with_template ctx none = lift panic
  ensure_stamped o mutate template with_template ctx (some workload) =
      attempt
        (reads (
          stamp_inputs k.secrets.client k.config_maps.client k.encode k.tools.digest
            ctx.project.meta.namespace (template workload)))
        raise (λ pod. ensure o mutate (some (with_template pod workload)) ctx.owner)

  -- reconcileDeployment, for a way to mutate
  unfoldable pub reconcile_deployment :
      (Deployment → Deployment → Outcome Deployment)
      → String
      → Context
      → Outcome (Option Deployment)
      → Exec W (Unit {0})
  unfolding ensure_stamped
  reconcile_deployment mutate what ctx built =
      attempt (lift (wrapped (concat ("building " ∷ what ∷ [])) built)) raise (
        ensure_stamped k.deployments mutate (λ d. d.spec.template)
          (λ pod d. record d { spec = record d.spec { template = pod } }) ctx)

  -- reconcileStatefulSet
  unfoldable pub reconcile_stateful_set :
      String → Context → Outcome (Option StatefulSet) → Exec W (Unit {0})
  unfolding ensure_stamped
  reconcile_stateful_set what ctx built =
      attempt (lift (wrapped (concat ("building " ∷ what ∷ [])) built)) raise (
        ensure_stamped k.stateful_sets mutate_stateful_set (λ d. d.spec.template)
          (λ pod d. record d { spec = record d.spec { template = pod } }) ctx)

  -- the annotation that names the owner of a volume; a nil volume or owner makes the source panic
  abbrev pub annotated :
      Context → Option PersistentVolumeClaim → Outcome (Option PersistentVolumeClaim)
  annotated ctx none = panic
  annotated ctx (some pvc) = elim ctx.owner [
    | none ↦ panic
    | some owner ↦ ok (
        some (record pvc {
          meta = record pvc.meta { annotations = literal ((owner_uid_annotation, owner.uid) ∷ []) };
        }))
  ]

  -- reconcilePVC
  unfoldable pub reconcile_pvc :
      String → Context → Outcome (Option PersistentVolumeClaim) → Exec W (Unit {0})
  unfolding ensure
  reconcile_pvc what ctx built =
      attempt (lift (wrapped (concat ("building " ∷ what ∷ [])) built)) raise λ pvc.
        attempt (lift (annotated ctx pvc)) raise
          (λ desired. ensure k.claims mutate_pvc desired ctx.owner)

-- What a run does in turn, each with the reason that a failure of it gives.
abbrev pub Tasks : Type 0 → Type 0
Tasks W = List (String × Exec W (Unit {0}))

module _ {W T : Type 0} (c : Component W T) where
  -- `if err != nil { return NotReady(ctx, c, obj, reason, err.Error()) }`
  abbrev pub or_not_ready :
      {A : Type 0} → T → String → Exec W A → (A → Exec W ReconcileResult) → Exec W ReconcileResult
  or_not_ready obj reason m next = attempt m (λ e. not_ready c obj reason e.text) next

  unfoldable pub run_tasks : T → Tasks W → Exec W ReconcileResult → Exec W ReconcileResult
  run_tasks obj [] next = next
  run_tasks obj ((reason, m) ∷ tasks) next =
      or_not_ready obj reason m (λ _. run_tasks obj tasks next)

  -- the end of Reconcile: the objects, the rollout, and Ready
  unfoldable pub conclude : T → Tasks W → (W → Outcome (Unit {0})) → Exec W ReconcileResult
  unfolding run_tasks
  conclude obj tasks rolled_out =
      run_tasks obj tasks
        (or_not_ready obj "WorkloadNotReady" (reads rolled_out) (λ _. ready c obj))
