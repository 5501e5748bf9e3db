-- ===== src/Database/Laws.antt =====
-- When a reference resolves.
use supabase_kubernetes.Api.Common.{DatabaseRef, ResolvedDatabase}
use supabase_kubernetes.Api.Databases.{SingleDatabase}
use supabase_kubernetes.Database.{resolve_ref, resolve_single_database}
use supabase_kubernetes.Go.Outcome.{Outcome, err, ok, panic}
use supabase_kubernetes.Kube.Client.{Client}
use supabase_kubernetes.Kube.Condition.{Conditions}
use supabase_kubernetes.Prelude.{
  Bool-cases, String, ap, arith, eq_iff, inl, inr, refl, some, true, ◌=s◌, ◌↔◌, ◌≡◌,
}
use supabase_kubernetes.Reconciler.Status.{condition_type_ready}

module _ {W : Type 0} (cs : Conditions) (c : Client W SingleDatabase) where
  abbrev pub Resolves : DatabaseRef → String → W → ResolvedDatabase → Type 0
  Resolves ref namespace w db =
      (single_db : SingleDatabase) × (c.get namespace ref.name w ≡ ok single_db)
      × (cs.is_status_condition_true single_db.status.conditions condition_type_ready ≡ true)
      × (single_db.status.resolved_database ≡ some db)

  resolve_single_database_iff :
      (ref : DatabaseRef) (namespace : String) (w : W) (db : ResolvedDatabase)
      → (resolve_single_database cs c ref namespace w ≡ ok (some db)) ↔ Resolves ref namespace w db
  unfolding resolve_single_database
  resolve_single_database_iff ref namespace w db = (
    by_read (c.get namespace ref.name w) refl,
    λ h. rw (h.1, resolve_single_database) (rw h.2 (ap ok h.3)),
  )
    where
      by_read :
          (read : Outcome SingleDatabase)
          → c.get namespace ref.name w ≡ read
          → resolve_single_database cs c ref namespace w ≡ ok (some db)
          → Resolves ref namespace w db
      by_read (ok single_db) found h = (
        single_db,
        found,
        ground (arith, rw (found, resolve_single_database) at h),
        ground (arith, rw (found, resolve_single_database) at h),
      )
      by_read (err e) found h = ground (arith, rw (found, resolve_single_database) at h)
      by_read panic found h = cc (rw (found, resolve_single_database) at h)

  -- A reference resolves to `db` exactly when its kind is SingleDatabase and the object that it
  -- names exists, has the condition Ready and publishes `db`.
  pub resolve_ref_iff :
      (ref : DatabaseRef) (namespace : String) (w : W) (db : ResolvedDatabase)
      → (resolve_ref cs c ref namespace w ≡ ok (some db))
        ↔ ((ref.kind ≡ "SingleDatabase") × Resolves ref namespace w db)
  unfolding resolve_ref
  resolve_ref_iff ref namespace w db = elim (Bool-cases (ref.kind =s "SingleDatabase")) [
    | inl single ↦ (
      λ h. (
        (eq_iff ref.kind "SingleDatabase").0 single,
        (resolve_single_database_iff ref namespace w db).0 (rw (single, resolve_ref) at h),
      ),
      λ h. rw (single, resolve_ref) ((resolve_single_database_iff ref namespace w db).1 h.1),
    )
    | inr other_kind ↦ (
      λ h. cc (rw (other_kind, resolve_ref) at h),
      λ h. cc (other_kind, (eq_iff ref.kind "SingleDatabase").1 h.0),
    )
  ]
