-- ===== src/Controller/Project/Ready.antt =====
-- What holds after a run for a Project that ends without error and asks for no further run.
use supabase_kubernetes.Api.Common.{ResolvedDatabase}
use supabase_kubernetes.Api.Projects.{Project, project_conditioned}
use supabase_kubernetes.Controller.Common.{ReconcileResult, fail, finished, put_status}
use supabase_kubernetes.Controller.Common.Ends.{Avoids-fail, Avoids-failure, Avoids-wait}
use supabase_kubernetes.Controller.Project.{
  Reconciler, ensure_sync_jwt_job, ensure_sync_password_job, mark_ready, ready_project, status,
}
use supabase_kubernetes.Controller.Project.Sync.{
  SyncTexts, follow_sync, jwt_texts, password_texts, run_sync, sync_jwt, sync_password,
  with_jwt_hash, with_password_hash,
}
use supabase_kubernetes.Defaults.Project.Sync.{
  compute_jwt_sync_hash, compute_password_sync_hash, sync_jwt_job_name, sync_password_job_name,
}
use supabase_kubernetes.Go.Exec.{Exec, pure, raise}
use supabase_kubernetes.Go.Exec.Inversion.{
  >>=-eq-ok, Avoids-raise, attempt-eq-ok, lift-eq-ok, ok_pair, read-eq-ok,
}
use supabase_kubernetes.Go.Outcome.{ok}
use supabase_kubernetes.Kube.Workload.{Job}
use supabase_kubernetes.Prelude.{
  Bool-cases, String, ap, eq_iff, inl, inr, ltb, refl, sym, ◌==◌, ◌=s◌, ◌∙◌, ◌≡◌, ◌≢◌,
}
use supabase_kubernetes.Reconciler.Status.{update_status}
use supabase_kubernetes.Reconciler.Status.Laws.{StatusKept, update_status_sound}

module _ {W : Type 0} (r : Reconciler W) where
  -- The Project as it is marked ready: the one of the cluster, with both hashes those of its database.
  pub record IsSynced (project : Project) (db : ResolvedDatabase) (password : String)
      (synced : Project) : Type 0 where
    pub meta : synced.meta ≡ project.meta
    pub spec : synced.spec ≡ project.spec
    pub jwt_sync_hash :
        compute_jwt_sync_hash r.digest project db password ≡ ok synced.status.jwt_sync_hash
    pub password_sync_hash :
        synced.status.password_sync_hash ≡ compute_password_sync_hash r.digest db password

  pub mark_ready_sound :
      (project : Project) (w w' : W)
      → mark_ready r project w ≡ (ok finished, w')
      → StatusKept project_conditioned r.machinery r.projects r.same_status
          (ready_project r project)
          w'
  unfolding mark_ready put_status
  mark_ready_sound project w w' run =
      let (_, w₁, sent, done) =
        >>=-eq-ok
          (update_status project_conditioned r.machinery r.projects r.same_status
            (ready_project r project))
          (λ _. pure finished) w run in
      update_status_sound project_conditioned r.machinery r.projects r.same_status
        (ready_project r project) w w' (rw (← (ok_pair done).1) sent)

  module _ (asks : r.requeue_interval ≢ 0) where
    follow_sync-eq-ok :
        (texts : SyncTexts) (project synced : Project) (next : Project → Exec W ReconcileResult)
        (job : Job) (w w' : W)
        → follow_sync r texts project synced next job w ≡ (ok finished, w')
        → (w₁ : W) × (next synced w₁ ≡ (ok finished, w'))
    unfolding follow_sync
    follow_sync-eq-ok texts project synced next job w w' run =
        elim (Bool-cases (ltb 0 job.status.failed)) [
          | inl failed ↦ absurd (
              (Avoids-failure (status r) project texts.failed_reason texts.failed_message _).at w w'
                (rw failed at run))
          | inr unfailed ↦ elim (Bool-cases (job.status.succeeded == 0)) [
            | inl waiting ↦ absurd (
                (Avoids-wait (status r) r.requeue_interval project _ _ asks).at w w'
                  (rw (unfailed, waiting) at run))
            | inr done ↦
                let (_, w₁, _, rest) =
                  >>=-eq-ok (put_status (status r) synced) (λ _. next synced) w
                    (rw (unfailed, done) at run) in
                (w₁, rest)
          ]
        ]

    run_sync-eq-ok :
        (texts : SyncTexts) (ensured : Exec W (Unit {0})) (job_name : String)
        (project synced : Project) (next : Project → Exec W ReconcileResult) (w w' : W)
        → run_sync r texts ensured job_name project synced next w ≡ (ok finished, w')
        → (w₁ : W) × (next synced w₁ ≡ (ok finished, w'))
    unfolding run_sync
    run_sync-eq-ok texts ensured job_name project synced next w w' run =
        let (_, w₁, _, rest) =
          attempt-eq-ok ensured (fail (status r) project texts.failed_reason) _ w
            (Avoids-fail (status r) project texts.failed_reason) run in
        let (job, _, rest') =
          read-eq-ok (r.jobs.get project.meta.namespace job_name) raise
            (follow_sync r texts project synced next) w₁ (λ e. Avoids-raise e finished) rest in
        follow_sync-eq-ok texts project synced next job w₁ w' rest'

    pub sync_password-eq-ok :
        (db : ResolvedDatabase) (password : String) (project : Project)
        (next : Project → Exec W ReconcileResult) (w w' : W)
        → sync_password r db password project next w ≡ (ok finished, w')
        → (synced : Project) × (w₁ : W) × (next synced w₁ ≡ (ok finished, w'))
          × (synced.meta ≡ project.meta)
          × (synced.spec ≡ project.spec)
          × (synced.status.jwt_sync_hash ≡ project.status.jwt_sync_hash)
          × (synced.status.password_sync_hash ≡ compute_password_sync_hash r.digest db password)
    unfolding sync_password
    sync_password-eq-ok db password project next w w' run =
        let hash = compute_password_sync_hash r.digest db password in
        elim (Bool-cases (hash =s project.status.password_sync_hash)) [
          | inl same ↦ (
            project,
            w,
            rw same at run,
            refl,
            refl,
            refl,
            sym ((eq_iff hash project.status.password_sync_hash).0 same),
          )
          | inr differs ↦
              let (w₁, rest) =
                run_sync-eq-ok password_texts (ensure_sync_password_job r project db)
                  (sync_password_job_name project) project (with_password_hash r hash project) next
                  w w' (rw differs at run) in
              (with_password_hash r hash project, w₁, rest, refl, refl, refl, refl)
        ]

    pub sync_jwt-eq-ok :
        (db : ResolvedDatabase) (password : String) (project : Project)
        (next : Project → Exec W ReconcileResult) (w w' : W)
        → sync_jwt r db password project next w ≡ (ok finished, w')
        → (synced : Project) × (w₁ : W) × (next synced w₁ ≡ (ok finished, w'))
          × (synced.meta ≡ project.meta)
          × (synced.spec ≡ project.spec)
          × (compute_jwt_sync_hash r.digest project db password ≡ ok synced.status.jwt_sync_hash)
    unfolding sync_jwt
    sync_jwt-eq-ok db password project next w w' run =
        let (hash, hashed, rest) =
          lift-eq-ok (compute_jwt_sync_hash r.digest project db password) _ w run in
        elim (Bool-cases (hash =s project.status.jwt_sync_hash)) [
          | inl same ↦ (
            project,
            w,
            rw same at rest,
            refl,
            refl,
            hashed ∙ ap ok ((eq_iff hash project.status.jwt_sync_hash).0 same),
          )
          | inr differs ↦
              let (w₁, rest') =
                run_sync-eq-ok jwt_texts (ensure_sync_jwt_job r project db)
                  (sync_jwt_job_name project) project (with_jwt_hash r hash project) next w w'
                  (rw differs at rest) in
              (with_jwt_hash r hash project, w₁, rest', refl, refl, hashed)
        ]
