-- ===== src/Controller/Component/Laws.antt =====
-- When a component goes on.
use supabase_kubernetes.Api.Projects.{Project}
use supabase_kubernetes.Controller.Common.{finished}
use supabase_kubernetes.Controller.Component.{
  Component, Step, check_unique, list_referring, not_ready, proceed, project_missing, start,
  start_found, stop, stop_not_ready, with_project,
}
use supabase_kubernetes.Go.Exec.{pure, raise}
use supabase_kubernetes.Go.Exec.Inversion.{
  Avoids, Avoids-attempt, Avoids-raise, ok_pair, read-eq-ok,
}
use supabase_kubernetes.Go.Outcome.{Error, ok}
use supabase_kubernetes.Prelude.{
  Bool-cases, List, Option, String, arith, false, if◌then◌else◌, inl, inr, is_some, length, ltb,
  none, refl, some, ◌≡◌, ◌≤◌,
}
use supabase_kubernetes.Reconciler.Ensure.{is_not_found}

module _ {W T : Type 0} (c : Component W T) where
  pub Avoids-stop :
      {A : Type 0} (obj : T) (reason message : String) (a : A)
      → Avoids (proceed a) (stop_not_ready c {A = A} obj reason message)
  unfolding stop_not_ready
  Avoids-stop obj reason message a =
      Avoids-attempt (not_ready c obj reason message) raise (λ result. pure (stop result))
        (λ e. Avoids-raise e (proceed a)) (λ result. record { at = λ w w' h. cc (ok_pair h).0 })

  -- The component is there and not being deleted, and so is its Project, to which no other
  -- component of the kind refers.
  pub record Starts (namespace name : String) (w : W) (obj : T) (project : Project) : Type 0 where
    pub found : c.writer.client.get namespace name w ≡ ok obj
    pub stays : (c.writer.conditioned.meta obj).deletion_timestamp ≡ none
    pub project_found :
        c.projects.get (c.writer.conditioned.meta obj).namespace (c.project_ref obj) w ≡ ok project
    pub project_stays : project.meta.deletion_timestamp ≡ none
    pub items : List T
    pub listed :
        list_referring c.writer.client c.project_ref
          (c.writer.conditioned.meta obj).namespace
          project.meta.name
          w
        ≡ ok items
    pub unique : length items ≤ 1

  is_some-eq-false : {A : Type 0} (o : Option A) → is_some o ≡ false → o ≡ none
  is_some-eq-false none h = refl
  is_some-eq-false (some a) h = cc

  check_unique-eq-ok :
      (obj : T) (project : Project) (items : List T) (w w' : W) (o : T) (p : Project)
      → check_unique c obj project items w ≡ (ok (proceed (o, p)), w')
      → (length items ≤ 1) × (obj ≡ o) × (project ≡ p) × (w ≡ w')
  unfolding check_unique
  check_unique-eq-ok obj project items w w' o p run = elim (Bool-cases (ltb 1 (length items))) [
    | inl many ↦ absurd ((Avoids-stop obj _ _ (o, p)).at w w' (rw many at run))
    | inr few ↦
        let (same, stays) = ok_pair (rw few at run) in (ground arith, cc same, cc same, stays)
  ]

  start_found-eq-ok :
      (namespace name : String) (obj : T) (w w' : W) (o : T) (p : Project)
      → c.writer.client.get namespace name w ≡ ok obj
      → start_found c obj w ≡ (ok (proceed (o, p)), w')
      → Starts namespace name w o p × (w ≡ w')
  unfolding start_found with_project project_missing
  start_found-eq-ok namespace name obj w w' o p found run =
      elim (Bool-cases (is_some (c.writer.conditioned.meta obj).deletion_timestamp)) [
        | inl going ↦ cc (ok_pair (rw going at run)).0
        | inr stays ↦
            let (project, project_found, rest) =
              read-eq-ok
                (c.projects.get (c.writer.conditioned.meta obj).namespace (c.project_ref obj)) _
                (with_project c obj) w avoids (rw stays at run) in
            elim (Bool-cases (is_some project.meta.deletion_timestamp)) [
              | inl going ↦ absurd ((Avoids-stop obj _ _ (o, p)).at w w' (rw going at rest))
              | inr project_stays ↦
                  let (items, listed, last_step) =
                    read-eq-ok
                      (list_referring c.writer.client c.project_ref
                        (c.writer.conditioned.meta obj).namespace project.meta.name)
                      raise (check_unique c obj project) w (λ e. Avoids-raise e (proceed (o, p)))
                      (rw project_stays at rest) in
                  let (few, same_obj, same_project, same_w) =
                    check_unique-eq-ok obj project items w w' o p last_step in
                  (
                    rw (← same_obj, ← same_project)
                        (record {
                          found = found;
                          stays = is_some-eq-false _ stays;
                          project_found = project_found;
                          project_stays = is_some-eq-false _ project_stays;
                          items = items;
                          listed = listed;
                          unique = few;
                        }),
                    same_w,
                  )
            ]
      ]
    where
      avoids :
          (e : Error)
          → Avoids {W = W} {A = Step (T × Project)} (proceed (o, p)) (
              if is_not_found e
              then stop_not_ready c obj "ProjectNotFound"
                  "Referenced Project is absent or deleting; dependent changes are suspended"
              else raise e)
      avoids e = elim (Bool-cases (is_not_found e)) [
        | inl missing ↦ rw missing (Avoids-stop obj _ _ (o, p))
        | inr failed ↦ rw failed (Avoids-raise e (proceed (o, p)))
      ]

  -- Start lets a component go on only if the component and its Project are there and neither is
  -- being deleted, and no other component of the kind refers to the Project; it has then written
  -- nothing.
  pub start_sound :
      (namespace name : String) (w w' : W) (obj : T) (project : Project)
      → start c namespace name w ≡ (ok (proceed (obj, project)), w')
      → Starts namespace name w obj project × (w ≡ w')
  unfolding start
  start_sound namespace name w w' obj project run =
      let (t, found, rest) =
        read-eq-ok (c.writer.client.get namespace name) _ (start_found c) w avoids run in
      start_found-eq-ok namespace name t w w' obj project found rest
    where
      avoids :
          (e : Error)
          → Avoids {W = W} {A = Step (T × Project)}
              (proceed (obj, project))
              (if is_not_found e then pure (stop finished) else raise e)
      avoids e = elim (Bool-cases (is_not_found e)) [
        | inl missing ↦ rw missing (record { at = λ v v' h. cc (ok_pair h).0 })
        | inr failed ↦ rw failed (Avoids-raise e (proceed (obj, project)))
      ]
