-- ===== src/Controller/Project/Sync.antt =====
-- The Jobs of a Project's run that write its settings to the database.
use supabase_kubernetes.Api.Common.{ResolvedDatabase}
use supabase_kubernetes.Api.Projects.{Project}
use supabase_kubernetes.Controller.Common.{ReconcileResult, fail, note_not_ready, put_status, wait}
use supabase_kubernetes.Controller.Project.{
  Reconciler, ensure_sync_jwt_job, ensure_sync_password_job, status,
}
use supabase_kubernetes.Defaults.Project.Sync.{
  compute_jwt_sync_hash, compute_password_sync_hash, sync_jwt_job_name, sync_password_job_name,
}
use supabase_kubernetes.Go.Exec.{Exec, attempt, lift, raise}
use supabase_kubernetes.Go.Outcome.{errorf}
use supabase_kubernetes.Kube.Workload.{Job}
use supabase_kubernetes.Prelude.{String, if◌then◌else◌, ltb, ◌==◌, ◌=s◌}

-- What follows a Job that syncs a setting: its names in the status and in the errors, and its messages.
pub record SyncTexts : Type 0 where
  pub failed_reason : String
  pub failed_message : String
  pub failed_error : String
  pub in_progress_reason : String
  pub in_progress_message : String

abbrev pub jwt_texts : SyncTexts
jwt_texts = record {
  failed_reason = "SyncJWTJobFailed";
  failed_message = "Sync JWT job failed";
  failed_error = "sync-jwt job failed";
  in_progress_reason = "SyncJWTJobInProgress";
  in_progress_message = "Waiting for sync JWT job to complete";
}

abbrev pub password_texts : SyncTexts
password_texts = record {
  failed_reason = "SyncPasswordJobFailed";
  failed_message = "Sync password job failed";
  failed_error = "sync-password job failed";
  in_progress_reason = "SyncPasswordJobInProgress";
  in_progress_message = "Waiting for sync password job to complete";
}

module _ {W : Type 0} (r : Reconciler W) where
  -- A sync: nothing where the hash is the one of the status, and else its Job, and the status with
  -- the new hash once the Job has succeeded. The Project with the new status goes on.
  unfoldable pub follow_sync :
      SyncTexts
      → Project
      → Project
      → (Project → Exec W ReconcileResult)
      → Job
      → Exec W ReconcileResult
  follow_sync texts project synced next job =
      if ltb 0 job.status.failed
      then note_not_ready (status r) project texts.failed_reason texts.failed_message
          (raise (errorf texts.failed_error))
      else if job.status.succeeded == 0
      then wait (status r) r.requeue_interval project texts.in_progress_reason
          texts.in_progress_message
      else attempt (put_status (status r) synced) raise (λ _. next synced)

  unfoldable pub run_sync :
      SyncTexts
      → Exec W (Unit {0})
      → String
      → Project
      → Project
      → (Project → Exec W ReconcileResult)
      → Exec W ReconcileResult
  run_sync texts ensured job_name project synced next =
      attempt ensured (fail (status r) project texts.failed_reason) (λ _.
        attempt (λ w. (r.jobs.get project.meta.namespace job_name w, w)) raise
          (follow_sync texts project synced next))

  abbrev pub with_jwt_hash : String → Project → Project
  with_jwt_hash hash project = record project {
    status = record project.status { jwt_sync_hash = hash };
  }

  abbrev pub with_password_hash : String → Project → Project
  with_password_hash hash project = record project {
    status = record project.status { password_sync_hash = hash };
  }

  unfoldable pub sync_jwt :
      ResolvedDatabase
      → String
      → Project
      → (Project → Exec W ReconcileResult)
      → Exec W ReconcileResult
  sync_jwt db password project next =
      attempt (lift (compute_jwt_sync_hash r.digest project db password)) raise λ hash.
        if hash =s project.status.jwt_sync_hash
        then next project
        else run_sync jwt_texts (ensure_sync_jwt_job r project db) (sync_jwt_job_name project)
            project (with_jwt_hash hash project) next

  unfoldable pub sync_password :
      ResolvedDatabase
      → String
      → Project
      → (Project → Exec W ReconcileResult)
      → Exec W ReconcileResult
  sync_password db password project next =
      let hash = compute_password_sync_hash r.digest db password in
      if hash =s project.status.password_sync_hash
      then next project
      else run_sync password_texts (ensure_sync_password_job r project db)
          (sync_password_job_name project) project (with_password_hash hash project) next
