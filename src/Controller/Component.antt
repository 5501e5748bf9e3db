-- ===== src/Controller/Component.antt =====
-- internal/controller/component/controller.go: what the reconcilers of the components share.
pub mod Laws
pub mod Rollout
pub mod Needs
pub mod Stamp
pub mod Run
pub mod Plain
use supabase_kubernetes.Api.Common.{ResolvedDatabase}
use supabase_kubernetes.Api.Databases.{SingleDatabase}
use supabase_kubernetes.Api.Projects.{Project}
use supabase_kubernetes.Controller.Common.{ReconcileResult, StatusWriter, finished, put_status}
use supabase_kubernetes.Database.{resolve_ref}
use supabase_kubernetes.Go.Exec.{Exec, attempt, pure, raise}
use supabase_kubernetes.Go.Outcome.{Outcome, err, errorf, ok}
use supabase_kubernetes.Go.Pure.{◌>>=◌}
use supabase_kubernetes.Kube.Client.{Client}
use supabase_kubernetes.Prelude.{
  List, Option, String, [], concat, if◌then◌else◌, is_some, length, ltb, none, not, some, ◌=s◌, ◌∷◌,
}
use supabase_kubernetes.Reconciler.Ensure.{is_not_found}
use supabase_kubernetes.Reconciler.Status.{condition_type_ready, set_not_ready, set_ready}

-- Object: a component with its conditions and the name of its Project, of one kind, with its clients.
pub record Component (W T : Type 0) : Type 0 where
  pub writer : StatusWriter W T
  pub project_ref : T → String
  pub kind : String
  pub projects : Client W Project
  pub databases : Client W SingleDatabase

-- What Start, ResolveDatabase and RequireDependency tell their caller: to go on with a value, or to
-- return a result.
pub data Step (A : Type 0) : Type 0 where
  proceed : A → Step A
  stop : ReconcileResult → Step A

-- List in a namespace with the field selector `spec.projectRef.name`, which the index of
-- SetupWithManager answers.
unfoldable pub referring : {T : Type 0} → (T → String) → String → List T → List T
referring project_ref name [] = []
referring project_ref name (t ∷ ts) =
    let rest = referring project_ref name ts in if project_ref t =s name then t ∷ rest else rest

unfoldable pub list_referring :
    {W T : Type 0} → Client W T → (T → String) → String → String → W → Outcome (List T)
list_referring c project_ref namespace name w = do
  items ← c.list namespace w
  ok (referring project_ref name items)

module _ {W T : Type 0} (c : Component W T) where
  -- NotReady; the interval is in seconds.
  unfoldable pub not_ready : T → String → String → Exec W ReconcileResult
  not_ready obj reason message =
      attempt
        (put_status c.writer
          (set_not_ready c.writer.conditioned c.writer.conditions obj reason message))
        raise (λ _. pure (record { requeue_after = 30 }))

  unfoldable pub ready : T → Exec W ReconcileResult
  ready obj =
      attempt
        (put_status c.writer (
          set_ready c.writer.conditioned c.writer.conditions obj "ReconcileSucceeded"
            "Component resources reconciled successfully"))
        raise (λ _. pure finished)

  unfoldable pub stop_not_ready : {A : Type 0} → T → String → String → Exec W (Step A)
  stop_not_ready obj reason message =
      attempt (not_ready obj reason message) raise (λ result. pure (stop result))

  -- the step of Start once the components that refer to the Project are listed
  unfoldable pub check_unique : T → Project → List T → Exec W (Step (T × Project))
  check_unique obj project items =
      if ltb 1 (length items)
      then stop_not_ready obj "ConflictingComponents"
          (concat ("Multiple " ∷ c.kind ∷ " resources reference this Project" ∷ []))
      else pure (proceed (obj, project))

  unfoldable pub project_missing : T → Exec W (Step (T × Project))
  project_missing obj =
      stop_not_ready obj "ProjectNotFound"
        "Referenced Project is absent or deleting; dependent changes are suspended"

  -- the step of Start once the Project is read
  unfoldable pub with_project : T → Project → Exec W (Step (T × Project))
  unfolding project_missing
  with_project obj project =
      if is_some project.meta.deletion_timestamp
      then project_missing obj
      else attempt
          (λ w. (
            list_referring c.writer.client c.project_ref (c.writer.conditioned.meta obj).namespace
                project.meta.name w,
            w,
          ))
          raise (check_unique obj project)

  unfoldable pub start_found : T → Exec W (Step (T × Project))
  unfolding project_missing
  start_found obj =
      if is_some (c.writer.conditioned.meta obj).deletion_timestamp
      then pure (stop finished)
      else attempt
          (λ w. (c.projects.get (c.writer.conditioned.meta obj).namespace (c.project_ref obj) w, w))
          (λ e. if is_not_found e then project_missing obj else raise e) (with_project obj)

  -- Start; the component that it loads is part of what it gives.
  unfoldable pub start : (namespace name : String) → Exec W (Step (T × Project))
  start namespace name =
      attempt (λ w. (c.writer.client.get namespace name w, w))
        (λ e. if is_not_found e then pure (stop finished) else raise e) start_found

  unfoldable pub with_resolved : T → Option ResolvedDatabase → Exec W (Step ResolvedDatabase)
  with_resolved obj none = stop_not_ready obj "DatabaseNotReady" "Referenced database is not ready"
  with_resolved obj (some db) = pure (proceed db)

  unfoldable pub resolve_database : T → Project → Exec W (Step ResolvedDatabase)
  resolve_database obj project =
      if not (
        c.writer.conditions.is_status_condition_true project.status.conditions condition_type_ready)
      then stop_not_ready obj "ProjectNotReady" "Shared Project infrastructure is not ready"
      else attempt
          (λ w. (
            resolve_ref c.writer.conditions c.databases project.spec.database_ref
                project.meta.namespace w,
            w,
          ))
          (λ e. stop_not_ready obj "DatabaseResolutionFailed" e.text) (with_resolved obj)

  unfoldable pub check_dependency : {D : Type 0} → T → String → List D → Exec W (Step D)
  check_dependency obj kind [] =
      stop_not_ready obj "DependencyNotFound" (concat (kind ∷ " resource is required" ∷ []))
  check_dependency obj kind (d ∷ []) = pure (proceed d)
  check_dependency obj kind (d ∷ d' ∷ ds) =
      stop_not_ready obj "AmbiguousDependency"
        (concat ("Multiple " ∷ kind ∷ " resources reference this Project" ∷ []))

  unfoldable pub require_dependency :
      {D : Type 0} → Client W D → (D → String) → String → T → Exec W (Step D)
  require_dependency dependencies project_ref kind obj =
      attempt
        (λ w. (
          list_referring dependencies project_ref (c.writer.conditioned.meta obj).namespace
              (c.project_ref obj) w,
          w,
        ))
        raise (check_dependency obj kind)

unfoldable pub only_item : {D : Type 0} → String → List D → Outcome (Option D)
only_item kind [] = ok none
only_item kind (d ∷ []) = ok (some d)
only_item kind (d ∷ d' ∷ ds) =
    err (errorf (concat ("multiple " ∷ kind ∷ " resources reference this Project" ∷ [])))

unfoldable pub list_optional :
    {W D : Type 0}
    → Client W D
    → (D → String)
    → String
    → (namespace project_name : String) → W
    → Outcome (Option D)
list_optional c project_ref kind namespace project_name w = do
  items ← list_referring c project_ref namespace project_name w
  only_item kind items
