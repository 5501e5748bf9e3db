-- ===== src/Database.antt =====
-- internal/database/main.go: resolving a reference to a database.
pub mod Laws
use supabase_kubernetes.Api.Common.{DatabaseRef, ResolvedDatabase}
use supabase_kubernetes.Api.Databases.{SingleDatabase}
use supabase_kubernetes.Go.Outcome.{Outcome, err, errorf, ok, panic, wrap}
use supabase_kubernetes.Kube.Client.{Client}
use supabase_kubernetes.Kube.Condition.{Conditions}
use supabase_kubernetes.Prelude.{Option, String, [], concat, if◌then◌else◌, none, ◌=s◌, ◌∷◌}
use supabase_kubernetes.Reconciler.Ensure.{is_not_found}
use supabase_kubernetes.Reconciler.Status.{condition_type_ready}

module _ {W : Type 0} (cs : Conditions) (c : Client W SingleDatabase) where
  -- `some` is a database that is ready, `none` is "not ready" with no error.
  unfoldable pub resolve_single_database :
      DatabaseRef → String → W → Outcome (Option ResolvedDatabase)
  resolve_single_database ref namespace w = elim (c.get namespace ref.name w) [
    | err e ↦
        if is_not_found e
        then ok none
        else err (wrap (concat ("getting SingleDatabase \"" ∷ ref.name ∷ "\"" ∷ [])) e)
    | panic ↦ panic
    | ok single_db ↦
        if cs.is_status_condition_true single_db.status.conditions condition_type_ready
        then ok single_db.status.resolved_database
        else ok none
  ]

  unfoldable pub resolve_ref : DatabaseRef → String → W → Outcome (Option ResolvedDatabase)
  unfolding resolve_single_database
  resolve_ref ref namespace w =
      if ref.kind =s "SingleDatabase"
      then resolve_single_database ref namespace w
      else err (errorf (concat ("unsupported database kind \"" ∷ ref.kind ∷ "\"" ∷ [])))
