-- ===== src/Controller/SingleDatabase/Success.antt =====
-- When a run publishes a SingleDatabase, and what ResolveRef then tells the other reconcilers.
use supabase_kubernetes.Api.Common.{DatabaseRef, ResolvedDatabase}
use supabase_kubernetes.Api.Databases.{
  SingleDatabase, SingleDatabaseStatus, single_database_conditioned,
}
use supabase_kubernetes.Controller.Common.{fail, finished, put_status}
use supabase_kubernetes.Controller.Common.Ends.{Avoids-fail, Avoids-wait}
use supabase_kubernetes.Controller.SingleDatabase.{
  Reconciler, ensure_database_secret, ensure_pvc, ensure_service, ensure_stateful_set,
  ensure_workload, follow_stateful_set, publish, published, reconcile, reconcile_found, status,
  wanted_replicas,
}
use supabase_kubernetes.Database.{resolve_ref, resolve_single_database}
use supabase_kubernetes.Database.Laws.{resolve_ref_iff}
use supabase_kubernetes.Defaults.SingleDatabase.{
  postgres_secret_name, postgres_service_host, postgres_stateful_set_name, secret_key_password,
}
use supabase_kubernetes.Go.Exec.{pure, raise}
use supabase_kubernetes.Go.Exec.Inversion.{
  >>=-eq-ok, Avoids-raise, attempt-eq-ok, ok_pair, read-eq-ok,
}
use supabase_kubernetes.Go.Outcome.{ok}
use supabase_kubernetes.Kube.Workload.{StatefulSet}
use supabase_kubernetes.Prelude.{
  Bool-cases, String, ap, arith, eq_iff, inl, inr, ltb, none, refl, some, true, ◌∙◌, ◌≡◌, ◌≢◌, ◌≤◌,
}
use supabase_kubernetes.Reconciler.Status.{
  condition_type_ready, set_not_ready, set_ready, update_status,
}
use supabase_kubernetes.Reconciler.Status.Laws.{
  StatusKept, is_ready, set_not_ready_lem, set_ready_lem, update_status_sound,
}

-- The published database.
abbrev pub database_of : {W : Type 0} → Reconciler W → SingleDatabase → ResolvedDatabase
database_of r db = record {
  host = postgres_service_host r.cluster_domain db;
  port = 5432;
  db_name = "postgres";
  user = "supabase_admin";
  password_ref = record { name = postgres_secret_name db; key = secret_key_password };
}

module _ {W : Type 0} (r : Reconciler W) where
  -- A StatefulSet of the database was seen with all replicas ready, and the status is published.
  pub record IsPublished (db : SingleDatabase) (w' : W) : Type 0 where
    pub sts : StatefulSet
    pub before : W
    pub read : r.stateful_sets.get db.meta.namespace (postgres_stateful_set_name db) before ≡ ok sts
    pub up : wanted_replicas sts ≤ sts.status.ready_replicas
    pub kept :
        StatusKept single_database_conditioned r.machinery r.databases r.same_status
          (published r db)
          w'

  publish_sound :
      (db : SingleDatabase) (w w' : W)
      → publish r db w ≡ (ok finished, w')
      → StatusKept single_database_conditioned r.machinery r.databases r.same_status
          (published r db)
          w'
  unfolding publish put_status
  publish_sound db w w' run =
      let (_, w₁, sent, done) =
        >>=-eq-ok
          (update_status single_database_conditioned r.machinery r.databases r.same_status
            (published r db))
          (λ _. pure finished) w run in
      update_status_sound single_database_conditioned r.machinery r.databases r.same_status
        (published r db) w w' (rw (← (ok_pair done).1) sent)

  module _ (asks : r.requeue_interval ≢ 0) (db : SingleDatabase) where
    follow_stateful_set-eq-ok :
        (sts : StatefulSet) (w w' : W)
        → r.stateful_sets.get db.meta.namespace (postgres_stateful_set_name db) w ≡ ok sts
        → follow_stateful_set r db sts w ≡ (ok finished, w')
        → IsPublished db w'
    unfolding follow_stateful_set
    follow_stateful_set-eq-ok sts w w' read run =
        elim (Bool-cases (ltb sts.status.ready_replicas (wanted_replicas sts))) [
          | inl down ↦
              absurd
                ((Avoids-wait (status r) r.requeue_interval db _ _ asks).at w w' (rw down at run))
          | inr up ↦ record {
            sts = sts;
            before = w;
            read = read;
            up = ground arith;
            kept = publish_sound db w w' (rw up at run);
          }
        ]

    ensure_workload-eq-ok :
        (hash : String) (w w' : W)
        → ensure_workload r db hash w ≡ (ok finished, w')
        → IsPublished db w'
    unfolding ensure_workload
    ensure_workload-eq-ok hash w w' run =
        let (_, w₁, _, rest₁) =
          attempt-eq-ok (ensure_pvc r db) (fail (status r) db "PVCFailed") _ w
            (Avoids-fail (status r) db "PVCFailed") run in
        let (_, w₂, _, rest₂) =
          attempt-eq-ok (ensure_service r db) (fail (status r) db "ServiceFailed") _ w₁
            (Avoids-fail (status r) db "ServiceFailed") rest₁ in
        let (_, w₃, _, rest₃) =
          attempt-eq-ok (ensure_stateful_set r db hash) (fail (status r) db "StatefulSetFailed") _
            w₂ (Avoids-fail (status r) db "StatefulSetFailed") rest₂ in
        let (sts, read, rest₄) =
          read-eq-ok (r.stateful_sets.get db.meta.namespace (postgres_stateful_set_name db))
            (fail (status r) db "StatefulSetGetFailed") (follow_stateful_set r db) w₃
            (Avoids-fail (status r) db "StatefulSetGetFailed") rest₃ in
        follow_stateful_set-eq-ok sts w₃ w' read rest₄

    database_found-eq-ok :
        (w w' : W) → reconcile_found r db w ≡ (ok finished, w') → IsPublished db w'
    unfolding reconcile_found
    database_found-eq-ok w w' run =
        let (_, w₁, _, rest₁) =
          attempt-eq-ok (ensure_database_secret r db) (fail (status r) db "SecretFailed") _ w
            (Avoids-fail (status r) db "SecretFailed") run in
        let (secret, _, rest₂) =
          read-eq-ok (r.secrets.get db.meta.namespace (postgres_secret_name db)) raise
            (λ s. ensure_workload r db (r.secret_hash s)) w₁ (λ e. Avoids-raise e finished) rest₁ in
        ensure_workload-eq-ok (r.secret_hash secret) w₁ w' rest₂

-- A run for a SingleDatabase that ends without error and asks for no further run, of a reconciler
-- whose interval is not zero, has seen the StatefulSet of the database with all its replicas ready,
-- and leaves in the cluster the status that is ready and publishes the database.
pub reconcile-IsPublished :
    {W : Type 0} (r : Reconciler W) (namespace name : String) (w w' : W) (db : SingleDatabase)
    → r.requeue_interval ≢ 0
    → r.databases.get namespace name w ≡ ok db
    → reconcile r namespace name w ≡ (ok finished, w')
    → IsPublished r db w'
unfolding reconcile
reconcile-IsPublished r namespace name w w' db asks found run =
    database_found-eq-ok r asks db w w' (rw found at run)

published_status :
    {W : Type 0} (r : Reconciler W) (db : SingleDatabase)
    → (published r db).status.resolved_database ≡ some (database_of r db)
unfolding published set_ready
published_status r db = refl

published-is_ready :
    {W : Type 0} (r : Reconciler W) (db : SingleDatabase)
    → is_ready single_database_conditioned r.conditions (published r db) ≡ true
unfolding published
published-is_ready r db = (set_ready_lem single_database_conditioned r.conditions _ _ _).0

-- The contract between the SingleDatabase reconciler and the others: a reference to an object that
-- has the published status resolves to the database, and one to an object whose status was set to
-- not ready resolves to nothing, without error, whatever is published there.
pub resolve_ref-published :
    {W : Type 0} (r : Reconciler W) (db latest : SingleDatabase) (ref : DatabaseRef)
    (namespace reason message : String) (w : W)
    → ref.kind ≡ "SingleDatabase"
    → r.databases.get namespace ref.name w ≡ ok latest
    → (latest.status ≡ (published r db).status
        → resolve_ref r.conditions r.databases ref namespace w ≡ ok (some (database_of r db)))
      × (latest.status
            ≡ (set_not_ready single_database_conditioned r.conditions db reason message).status
          → resolve_ref r.conditions r.databases ref namespace w ≡ ok none)
unfolding resolve_ref resolve_single_database
resolve_ref-published r db latest ref namespace reason message w kind found = (
  λ same. (resolve_ref_iff r.conditions r.databases ref namespace w (database_of r db)).1 (
    kind,
    (
      latest,
      found,
      ap
            (λ (s : SingleDatabaseStatus).
              r.conditions.is_status_condition_true s.conditions condition_type_ready)
            same
          ∙ published-is_ready r db,
      ap (λ (s : SingleDatabaseStatus). s.resolved_database) same ∙ published_status r db,
    ),
  ),
  λ same.
      let single = (eq_iff ref.kind "SingleDatabase").1 kind in
      let unready =
        ap
          (λ (s : SingleDatabaseStatus).
            r.conditions.is_status_condition_true s.conditions condition_type_ready)
          same
        ∙ (set_not_ready_lem single_database_conditioned r.conditions db reason message).0 in
      rw (single, found, unready, resolve_single_database) refl,
)
