-- ===== src/Controller/Component/Needs.antt =====
-- What a component gets from ResolveDatabase, RequireDependency and ListOptional.
use supabase_kubernetes.Api.Common.{ResolvedDatabase}
use supabase_kubernetes.Api.Projects.{Project, project_conditioned}
use supabase_kubernetes.Controller.Component.{
  Component, check_dependency, list_optional, list_referring, only_item, proceed, ready,
  require_dependency, resolve_database, stop_not_ready, with_resolved,
}
use supabase_kubernetes.Controller.Component.Laws.{Avoids-stop}
use supabase_kubernetes.Database.{resolve_ref}
use supabase_kubernetes.Go.Exec.{raise}
use supabase_kubernetes.Go.Exec.Inversion.{Avoids-raise, ok_pair, read-eq-ok}
use supabase_kubernetes.Go.Outcome.{ok}
use supabase_kubernetes.Go.Pure.{bind-eq-ok}
use supabase_kubernetes.Kube.Client.{Client}
use supabase_kubernetes.Prelude.{
  Bool-cases, List, Option, String, [], ap, arith, inl, inr, none, refl, some, true, ◌↔◌, ◌∙◌, ◌∷◌,
  ◌≡◌,
}
use supabase_kubernetes.Reconciler.Status.Laws.{is_ready}

module _ {W T : Type 0} (c : Component W T) where
  check_dependency-eq-ok :
      {D : Type 0} (obj : T) (kind : String) (items : List D) (d : D) (w w' : W)
      → check_dependency c obj kind items w ≡ (ok (proceed d), w')
      → (items ≡ d ∷ []) × (w ≡ w')
  unfolding check_dependency
  check_dependency-eq-ok obj kind [] d w w' run = absurd ((Avoids-stop c obj _ _ d).at w w' run)
  check_dependency-eq-ok obj kind (x ∷ []) d w w' run =
      let (same, stays) = ok_pair run in (ap (λ y. y ∷ []) (cc same), stays)
  check_dependency-eq-ok obj kind (x ∷ y ∷ ds) d w w' run =
      absurd ((Avoids-stop c obj _ _ d).at w w' run)

  -- RequireDependency goes on with `d` exactly where `d` is the one resource of its kind that refers
  -- to the component's Project, and has then written nothing.
  pub require_dependency_iff :
      {D : Type 0} (dependencies : Client W D) (project_ref : D → String) (kind : String) (obj : T)
      (d : D) (w w' : W)
      → (require_dependency c dependencies project_ref kind obj w ≡ (ok (proceed d), w')) ↔ (
          (list_referring dependencies project_ref
              (c.writer.conditioned.meta obj).namespace
              (c.project_ref obj)
              w
            ≡ ok (d ∷ []))
          × (w ≡ w'))
  unfolding require_dependency check_dependency
  require_dependency_iff dependencies project_ref kind obj d w w' = (
    λ run.
        let (items, listed, rest) =
          read-eq-ok
            (list_referring dependencies project_ref (c.writer.conditioned.meta obj).namespace
              (c.project_ref obj))
            raise (check_dependency c obj kind) w (λ e. Avoids-raise e (proceed d)) run in
        let (only, stays) = check_dependency-eq-ok obj kind items d w w' rest in
        (listed ∙ ap ok only, stays),
    λ h. rw (h.0, check_dependency, ← h.1) refl,
  )

  with_resolved-eq-ok :
      (obj : T) (found : Option ResolvedDatabase) (db : ResolvedDatabase) (w w' : W)
      → with_resolved c obj found w ≡ (ok (proceed db), w')
      → (found ≡ some db) × (w ≡ w')
  unfolding with_resolved
  with_resolved-eq-ok obj none db w w' run = absurd ((Avoids-stop c obj _ _ db).at w w' run)
  with_resolved-eq-ok obj (some x) db w w' run =
      let (same, stays) = ok_pair run in (ap some (cc same), stays)

  -- ResolveDatabase goes on with `db` only if the Project is ready and its reference resolves to
  -- `db`, and has then written nothing.
  pub resolve_database_sound :
      (obj : T) (project : Project) (db : ResolvedDatabase) (w w' : W)
      → resolve_database c obj project w ≡ (ok (proceed db), w')
      → (is_ready project_conditioned c.writer.conditions project ≡ true)
        × (resolve_ref c.writer.conditions c.databases project.spec.database_ref
              project.meta.namespace w
            ≡ ok (some db))
        × (w ≡ w')
  unfolding resolve_database
  resolve_database_sound obj project db w w' run =
      elim (Bool-cases (is_ready project_conditioned c.writer.conditions project)) [
        | inl ready ↦
            let (found, resolved, rest) =
              read-eq-ok
                (resolve_ref c.writer.conditions c.databases project.spec.database_ref
                  project.meta.namespace)
                (λ e. stop_not_ready c obj "DatabaseResolutionFailed" e.text) (with_resolved c obj)
                w (λ e. Avoids-stop c obj _ _ db) (rw ready at run) in
            let (same, stays) = with_resolved-eq-ok obj found db w w' rest in
            (ready, resolved ∙ ap ok same, stays)
        | inr unready ↦ absurd ((Avoids-stop c obj _ _ db).at w w' (rw unready at run))
      ]

abbrev pub items_of : {D : Type 0} → Option D → List D
items_of none = []
items_of (some d) = d ∷ []

only_item_iff :
    {D : Type 0} (kind : String) (items : List D) (found : Option D)
    → (only_item kind items ≡ ok found) ↔ (items ≡ items_of found)
unfolding only_item
only_item_iff kind [] none = (λ h. refl, λ h. refl)
only_item_iff kind [] (some d) = (λ h. cc, λ h. cc)
only_item_iff kind (d ∷ []) none = (λ h. cc, λ h. cc)
only_item_iff kind (d ∷ []) (some e) = (λ h. ground arith, λ h. ground arith)
only_item_iff kind (d ∷ e ∷ ds) none = (λ h. cc, λ h. cc)
only_item_iff kind (d ∷ e ∷ ds) (some x) = (λ h. cc, λ h. ground arith)

-- ListOptional gives nothing where no resource refers to the Project, the one resource where there is
-- one, and an error where there are more.
pub list_optional_iff :
    {W D : Type 0} (c : Client W D) (project_ref : D → String) (kind : String)
    (namespace project_name : String) (w : W) (found : Option D)
    → (list_optional c project_ref kind namespace project_name w ≡ ok found)
      ↔ (list_referring c project_ref namespace project_name w ≡ ok (items_of found))
unfolding list_optional
list_optional_iff c project_ref kind namespace project_name w found = (
  λ h.
      let (items, listed, done) =
        bind-eq-ok (list_referring c project_ref namespace project_name w)
          (λ items. only_item kind items) h in
      listed ∙ ap ok ((only_item_iff kind items found).0 done),
  λ h. rw h ((only_item_iff kind (items_of found) found).1 refl),
)
