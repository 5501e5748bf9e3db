-- ===== src/Controller/Component/Run/Suspended.antt =====
-- What a run leaves alone while the shared Project is not ready.
use supabase_kubernetes.Api.Common.{ResolvedDatabase}
use supabase_kubernetes.Api.Projects.{Project, project_conditioned}
use supabase_kubernetes.Controller.Common.{ReconcileResult}
use supabase_kubernetes.Controller.Common.Effects.{Keeps-put_status}
use supabase_kubernetes.Controller.Component.{
  Component, Step, check_unique, list_referring, not_ready, proceed, project_missing,
  resolve_database, start, start_found, stop, stop_not_ready, with_project,
}
use supabase_kubernetes.Controller.Component.Laws.{start_sound}
use supabase_kubernetes.Controller.Component.Run.{by_step, go_on}
use supabase_kubernetes.Go.Exec.{Exec, branch, pure, raise}
use supabase_kubernetes.Go.Exec.Keeps.{
  Keeps, Keeps-attempt, Keeps-if, Keeps-pure, Keeps-raise, Keeps-reads,
}
use supabase_kubernetes.Go.Outcome.{Outcome, err, ok, panic}
use supabase_kubernetes.Prelude.{String, ap, false, is_some, length, ltb, refl, sym, ◌∙◌, ◌≡◌}
use supabase_kubernetes.Reconciler.Ensure.{is_not_found}
use supabase_kubernetes.Reconciler.Status.{set_not_ready}
use supabase_kubernetes.Reconciler.Status.Laws.{is_ready}

module _ {W T : Type 0} (c : Component W T) {P : W → Type 0}
    (write : (obj latest : T) (reason message : String)
      → Keeps P (
          c.writer.client.update_status (
            c.writer.conditioned.copy_status
              (set_not_ready c.writer.conditioned c.writer.conditions obj reason message)
              latest))) where
  Keeps-stop_not_ready :
      {A : Type 0} (obj : T) (reason message : String)
      → Keeps P (stop_not_ready c {A = A} obj reason message)
  unfolding stop_not_ready not_ready
  Keeps-stop_not_ready obj reason message =
      Keeps-attempt _ raise (λ result. pure (stop result))
        (Keeps-attempt _ raise (λ _. pure (record { requeue_after = 30 }))
          (Keeps-put_status c.writer _ (λ latest. write obj latest reason message)) Keeps-raise
          (λ _. Keeps-pure _))
        Keeps-raise (λ result. Keeps-pure _)

  Keeps-start : (namespace name : String) → Keeps P (start c namespace name)
  unfolding start start_found with_project project_missing check_unique
  Keeps-start namespace name =
      Keeps-attempt _ _ (start_found c) (Keeps-reads _)
        (λ e. Keeps-if (is_not_found e) _ _ (Keeps-pure _) (Keeps-raise e))
        λ obj.
          Keeps-if (is_some (c.writer.conditioned.meta obj).deletion_timestamp) _ _ (Keeps-pure _) (
            Keeps-attempt _ _ (with_project c obj) (Keeps-reads _)
              (λ e. Keeps-if (is_not_found e) _ _ (Keeps-stop_not_ready obj _ _) (Keeps-raise e))
              λ project.
                Keeps-if (is_some project.meta.deletion_timestamp) _ _
                  (Keeps-stop_not_ready obj _ _)
                  (Keeps-attempt _ raise (check_unique c obj project)
                    (Keeps-reads (
                      list_referring c.writer.client c.project_ref
                        (c.writer.conditioned.meta obj).namespace project.meta.name))
                    Keeps-raise
                    λ items.
                      Keeps-if (ltb 1 (length items)) _ _ (Keeps-stop_not_ready obj _ _)
                        (Keeps-pure _)))

  Keeps-not_ready : (obj : T) (reason message : String) → Keeps P (not_ready c obj reason message)
  unfolding not_ready
  Keeps-not_ready obj reason message =
      Keeps-attempt _ raise (λ _. pure (record { requeue_after = 30 }))
        (Keeps-put_status c.writer _ (λ latest. write obj latest reason message)) Keeps-raise
        (λ _. Keeps-pure _)

  -- A guard that stops the run lets nothing follow.
  stopped-at :
      {A : Type 0} (next : A → Exec W ReconcileResult) (r : Outcome ReconcileResult) (w : W)
      → P w
      → P (go_on (λ w. branch r raise (λ result. pure (stop result)) w) next w).1
  stopped-at next (ok result) w p = p
  stopped-at next (err e) w p = p
  stopped-at next panic w p = p

  Keeps-stopped :
      {A : Type 0} (obj : T) (reason message : String) (next : A → Exec W ReconcileResult)
      → Keeps P (go_on (stop_not_ready c obj reason message) next)
  unfolding stop_not_ready
  Keeps-stopped obj reason message next = record {
    at = λ w p.
        stopped-at next (not_ready c obj reason message w).0 (not_ready c obj reason message w).1
          ((Keeps-not_ready obj reason message).at w p);
  }

  -- While the Project is not ready, the database is not resolved, and nothing follows.
  Keeps-unready :
      (obj : T) (project : Project) (next : ResolvedDatabase → Exec W ReconcileResult)
      → is_ready project_conditioned c.writer.conditions project ≡ false
      → Keeps P (go_on (resolve_database c obj project) next)
  unfolding resolve_database
  Keeps-unready obj project next unready = rw unready (Keeps-stopped obj _ _ next)

  -- A run of any reconciler that starts its component and then resolves the database, for a
  -- component whose Project the cluster holds as not ready, keeps whatever the not-ready statuses of
  -- the component keep.
  pub suspended :
      (namespace name : String) (obj : T)
      (next : T → Project → ResolvedDatabase → Exec W ReconcileResult) (w : W)
      → c.writer.client.get namespace name w ≡ ok obj
      → ((project : Project)
          → c.projects.get (c.writer.conditioned.meta obj).namespace (c.project_ref obj) w
            ≡ ok project
          → is_ready project_conditioned c.writer.conditions project ≡ false)
      → P w
      → P
          (go_on
            (start c namespace name)
            (λ q. go_on (resolve_database c q.0 q.1) (next q.0 q.1))
            w).1
  suspended namespace name obj next w found unready p =
      by_start (start c namespace name w).0 (start c namespace name w).1 refl
        ((Keeps-start namespace name).at w p)
    where
      ok_value : {x y : T} → ◌≡◌ {A = Outcome T} (ok x) (ok y) → x ≡ y
      ok_value h = cc

      unready_of :
          {o : T}
          → obj ≡ o
          → (project : Project)
          → c.projects.get (c.writer.conditioned.meta o).namespace (c.project_ref o) w ≡ ok project
          → is_ready project_conditioned c.writer.conditions project ≡ false
      unready_of same project read = unready project (
          ap (λ x. c.projects.get (c.writer.conditioned.meta x).namespace (c.project_ref x) w) same
          ∙ read)

      by_start :
          (r : Outcome (Step (T × Project))) (w₁ : W)
          → start c namespace name w ≡ (r, w₁)
          → P w₁
          → P
              (branch r raise
                (by_step (λ q. go_on (resolve_database c q.0 q.1) (next q.0 q.1)))
                w₁).1
      by_start (ok (proceed (o, project))) w₁ run p₁ =
          let (starts, same) = start_sound c namespace name w w₁ o project run in
          (Keeps-unready o project (next o project)
              (unready_of (ok_value (sym found ∙ starts.found)) project starts.project_found)).at
            w₁ p₁
      by_start (ok (stop result)) w₁ run p₁ = p₁
      by_start (err e) w₁ run p₁ = p₁
      by_start panic w₁ run p₁ = p₁
