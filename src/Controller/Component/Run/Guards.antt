-- ===== src/Controller/Component/Run/Guards.antt =====
-- The guards at the start of a run, where they stop it.
use mathlib.Core.Path.{subst}
use supabase_kubernetes.Api.Common.{ResolvedDatabase}
use supabase_kubernetes.Api.Projects.{Project, project_conditioned}
use supabase_kubernetes.Controller.Common.{ReconcileResult, finished}
use supabase_kubernetes.Controller.Component.{
  Component, Step, check_unique, list_referring, not_ready, proceed, project_missing,
  resolve_database, start, start_found, stop, stop_not_ready, with_project, with_resolved,
}
use supabase_kubernetes.Controller.Component.Laws.{Starts, start_sound}
use supabase_kubernetes.Controller.Component.Run.{by_step, go_on}
use supabase_kubernetes.Controller.Component.Run.Ended.{Avoids-not_ready}
use supabase_kubernetes.Database.{resolve_ref}
use supabase_kubernetes.Go.Exec.{Exec, pure, raise, reads}
use supabase_kubernetes.Go.Exec.Inversion.{>>=-eq-ok, Avoids, Avoids-attempt, Avoids-raise, ok_pair}
use supabase_kubernetes.Go.Outcome.{Outcome, ok}
use supabase_kubernetes.Prelude.{
  Bool, List, Option, String, ap, false, if◌then◌else◌, is_some, length, ltb, none, not, refl, some,
  sym, true, ◌∙◌, ◌≡◌, ◌≢◌,
}
use supabase_kubernetes.Reconciler.Ensure.{is_not_found}
use supabase_kubernetes.Reconciler.Status.Laws.{is_ready}

Avoids-if :
    {W A : Type 0} {a : A} {m n : Exec W A} (b : Bool)
    → Avoids a m
    → Avoids a n
    → Avoids a (if b then m else n)
Avoids-if true h k = h
Avoids-if false h k = k

stopped_with :
    {A : Type 0} {r : ReconcileResult} → ◌≡◌ {A = Step A} (stop r) (stop finished) → r ≡ finished
stopped_with e = cc

module _ {W T : Type 0} (c : Component W T) where
  -- A guard that stops the run asks for a later one.
  pub Avoids-stopped :
      {A : Type 0} (obj : T) (reason message : String)
      → Avoids (stop finished) (stop_not_ready c {A = A} obj reason message)
  unfolding stop_not_ready
  Avoids-stopped {A} obj reason message = record {
    at = λ w w' run.
        let (result, w₁, sent, last) =
          >>=-eq-ok (not_ready c obj reason message) (λ result. pure {A = Step A} (stop result)) w
            run in
        (Avoids-not_ready c obj reason message).at w w₁
          (sent ∙ ap (λ x. (ok x, w₁)) (stopped_with (ok_pair last).0));
  }

  check_unique-stopped :
      (obj : T) (project : Project) (items : List T)
      → Avoids (stop finished) (check_unique c obj project items)
  unfolding check_unique
  check_unique-stopped obj project items =
      Avoids-if (ltb 1 (length items)) (Avoids-stopped obj _ _)
        (record { at = λ w w' e. cc (ok_pair e).0 })

  with_project-stopped :
      (obj : T) (project : Project) → Avoids (stop finished) (with_project c obj project)
  unfolding with_project project_missing
  with_project-stopped obj project =
      Avoids-if (is_some project.meta.deletion_timestamp) (Avoids-stopped obj _ _) (
        Avoids-attempt
          (reads (
            list_referring c.writer.client c.project_ref (c.writer.conditioned.meta obj).namespace
              project.meta.name))
          raise (check_unique c obj project) (λ e. Avoids-raise e (stop finished))
          (check_unique-stopped obj project))

  -- Start ends a run only for a component that is gone or being deleted.
  pub start_found-stopped :
      (obj : T)
      → (c.writer.conditioned.meta obj).deletion_timestamp ≡ none
      → Avoids (stop finished) (start_found c obj)
  unfolding start_found project_missing
  start_found-stopped obj stays = rw stays (
      Avoids-attempt
        (reads (c.projects.get (c.writer.conditioned.meta obj).namespace (c.project_ref obj)))
        (λ e. if is_not_found e then project_missing c obj else raise e) (with_project c obj)
        (λ e. Avoids-if (is_not_found e) (Avoids-stopped obj _ _) (Avoids-raise e (stop finished)))
        (with_project-stopped obj))

  with_resolved-stopped :
      (obj : T) (found : Option ResolvedDatabase)
      → Avoids (stop finished) (with_resolved c obj found)
  unfolding with_resolved
  with_resolved-stopped obj none = Avoids-stopped obj _ _
  with_resolved-stopped obj (some db) = record { at = λ w w' e. cc (ok_pair e).0 }

  pub resolve_database-stopped :
      (obj : T) (project : Project) → Avoids (stop finished) (resolve_database c obj project)
  unfolding resolve_database
  resolve_database-stopped obj project =
      Avoids-if (not (is_ready project_conditioned c.writer.conditions project))
        (Avoids-stopped obj _ _)
        (Avoids-attempt
          (reads (
            resolve_ref c.writer.conditions c.databases project.spec.database_ref
              project.meta.namespace))
          (λ e. stop_not_ready c obj "DatabaseResolutionFailed" e.text) (with_resolved c obj)
          (λ e. Avoids-stopped obj _ _) (with_resolved-stopped obj))

module _ {W A : Type 0} where
  by_step-finished :
      (next : A → Exec W ReconcileResult) (s : Step A) (w w' : W)
      → s ≢ stop finished
      → by_step next s w ≡ (ok finished, w')
      → (a : A) × (s ≡ proceed a) × (next a w ≡ (ok finished, w'))
  by_step-finished next (proceed a) w w' n run = (a, refl, run)
  by_step-finished next (stop result) w w' n run = absurd (n (ap stop (cc (ok_pair run).0)))

  -- A run that ends with nothing more to ask has passed each guard that does not end it so.
  pub go_on-finished :
      (m : Exec W (Step A)) (next : A → Exec W ReconcileResult) (w w' : W)
      → ((w₁ : W) → ¬ (m w ≡ (ok (stop finished), w₁)))
      → go_on m next w ≡ (ok finished, w')
      → (a : A) × (w₁ : W) × (m w ≡ (ok (proceed a), w₁)) × (next a w₁ ≡ (ok finished, w'))
  go_on-finished m next w w' n run =
      let (s, w₁, first, rest) = >>=-eq-ok m (by_step next) w run in
      let (a, same, last) =
        by_step-finished next s w₁ w' (λ e. n w₁ (first ∙ ap (λ x. (ok x, w₁)) e)) rest in
      (a, w₁, first ∙ ap (λ x. (ok x, w₁)) same, last)

module _ {W T : Type 0} (c : Component W T) where
  start-stays :
      (namespace name : String) (obj : T) (w : W)
      → c.writer.client.get namespace name w ≡ ok obj
      → (c.writer.conditioned.meta obj).deletion_timestamp ≡ none
      → (w₁ : W) → ¬ (start c namespace name w ≡ (ok (stop finished), w₁))
  unfolding start
  start-stays namespace name obj w found stays w₁ run =
      (start_found-stopped c obj stays).at w w₁ (rw found at run)

  read_value : {x y : T} → ◌≡◌ {A = Outcome T} (ok x) (ok y) → x ≡ y
  read_value h = cc

  -- A run that starts a component which is there, and ends with nothing more to ask, has passed Start
  -- with this component.
  pub started-finished :
      (next : T × Project → Exec W ReconcileResult) (namespace name : String) (obj : T) (w w' : W)
      → c.writer.client.get namespace name w ≡ ok obj
      → (c.writer.conditioned.meta obj).deletion_timestamp ≡ none
      → go_on (start c namespace name) next w ≡ (ok finished, w')
      → (q : T × Project) × Starts c namespace name w q.0 q.1
        × (q.0 ≡ obj)
        × (next q w ≡ (ok finished, w'))
  started-finished next namespace name obj w w' found stays run =
      let (q, w₁, starting, rest) =
        go_on-finished (start c namespace name) next w w'
          (start-stays namespace name obj w found stays) run in
      let (starts, same) = start_sound c namespace name w w₁ q.0 q.1 starting in
      (
        q,
        starts,
        read_value (sym starts.found ∙ found),
        subst (λ v. next q v ≡ (ok finished, w')) (sym same) rest,
      )
