-- ===== src/Controller/Analytics/Shared.antt =====
-- Analytics that share a database.
use supabase_kubernetes.Api.Common.{database_ref_eq, database_ref_eq_iff}
use supabase_kubernetes.Api.Components.{AnalyticsSpec, Resource}
use supabase_kubernetes.Api.Projects.{Project}
use supabase_kubernetes.Controller.Analytics.{clear, conflict_among, conflicting}
use supabase_kubernetes.Go.Outcome.{Outcome, err, ok, panic}
use supabase_kubernetes.Kube.Client.{Client}
use supabase_kubernetes.Prelude.{
  Bool, Bool-cases, List, [], ap, eq_iff, false, false≢true, if◌then◌else◌, inl, inr, is_some, none,
  refl, sym, true, ◌=s◌, ◌||◌, ◌∙◌, ◌∷◌, ◌≡◌, ◌≢◌,
}
use supabase_kubernetes.Reconciler.Ensure.{is_not_found}

-- An Analytics that is not being deleted, of another name, whose Project is there, belongs to a
-- Project with another database.
abbrev pub Apart :
    {W : Type 0}
    → Client W Project
    → Resource AnalyticsSpec
    → Project
    → W
    → Resource AnalyticsSpec
    → Type 0
Apart projects obj project w item =
    item.meta.name ≢ obj.meta.name
    → item.meta.deletion_timestamp ≡ none
    → (p : Project) → projects.get obj.meta.namespace item.spec.project_ref w ≡ ok p
    → p.spec.database_ref ≢ project.spec.database_ref

abbrev pub All {ℓ} : {A : Type ℓ} → (A → Type 0) → List A → Type 0
All P [] = Unit
All P (x ∷ xs) = P x × All P xs

module _ {W : Type 0} (projects : Client W Project) (obj : Resource AnalyticsSpec)
    (project : Project) (w : W) where
  pub conflict_among-eq-clear :
      (items : List (Resource AnalyticsSpec))
      → conflict_among projects obj project items w ≡ ok clear
      → All (Apart projects obj project w) items
  unfolding conflict_among
  conflict_among-eq-clear [] run = tt
  conflict_among-eq-clear (item ∷ items) run =
      elim (Bool-cases
        ((item.meta.name =s obj.meta.name) || is_some item.meta.deletion_timestamp)) [
          | inl skip ↦ (skipped skip, conflict_among-eq-clear items (rw skip at run))
          | inr live ↦
              by_project (projects.get obj.meta.namespace item.spec.project_ref w) refl
                (conflict_among-eq-clear items) (rw live at run)
        ]
    where
      skipped :
          ((item.meta.name =s obj.meta.name) || is_some item.meta.deletion_timestamp) ≡ true
          → Apart projects obj project w item
      skipped skip apart stays p found same =
          apart ((eq_iff item.meta.name obj.meta.name).0 (by_or _ _ skip (ap is_some stays)))
        where
          by_or : (a b : Bool) → (a || b) ≡ true → b ≡ false → a ≡ true
          by_or true b h k = refl
          by_or false b h k = cc

      differs :
          (p : Project)
          → projects.get obj.meta.namespace item.spec.project_ref w ≡ ok p
          → database_ref_eq p.spec.database_ref project.spec.database_ref ≡ false
          → Apart projects obj project w item
      differs p read differ apart stays q found same =
          let one : p ≡ q = cc in
          false≢true (
            sym differ
            ∙ (database_ref_eq_iff p.spec.database_ref project.spec.database_ref).1
                (ap (λ (x : Project). x.spec.database_ref) one ∙ same))

      by_project :
          (r : Outcome Project)
          → projects.get obj.meta.namespace item.spec.project_ref w ≡ r
          → (conflict_among projects obj project items w ≡ ok clear
              → All (Apart projects obj project w) items)
          → (elim r [
            | ok p ↦
                if database_ref_eq p.spec.database_ref project.spec.database_ref
                then ok (conflicting item.meta.name)
                else conflict_among projects obj project items w
            | err e ↦ if is_not_found e then conflict_among projects obj project items w else err e
            | panic ↦ panic
          ])
            ≡ ok clear
          → All (Apart projects obj project w) (item ∷ items)
      by_project (ok p) read rest run =
          elim (Bool-cases (database_ref_eq p.spec.database_ref project.spec.database_ref)) [
            | inl equal ↦ cc (rw equal at run)
            | inr differ ↦ (differs p read differ, rest (rw differ at run))
          ]
      by_project (err e) read rest run = elim (Bool-cases (is_not_found e)) [
        | inl missing ↦ ((λ apart stays p found. cc), rest (rw missing at run))
        | inr failed ↦ cc (rw failed at run)
      ]
      by_project panic read rest run = cc
