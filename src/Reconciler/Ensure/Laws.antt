-- ===== src/Reconciler/Ensure/Laws.antt =====
-- The contract of EnsureResource: when it writes, what it writes, and what it never touches.
use supabase_kubernetes.Go.Exec.{branch, raise}
use supabase_kubernetes.Go.Exec.Inversion.{>>=-eq-ok, lift-eq-ok, ok_pair}
use supabase_kubernetes.Go.GoMap.{text_at}
use supabase_kubernetes.Go.Outcome.{Error, Outcome, err, not_found, ok, panic}
use supabase_kubernetes.Kube.Client.{Client, Machinery}
use supabase_kubernetes.Kube.Meta.{Object, ObjectMeta}
use supabase_kubernetes.Prelude.{
  Bool, Bool-cases, Option, Option-cases, String, arith, eq_iff, false, if◌then◌else◌, inl, inr,
  none, refl, some, true, ◌↔◌, ◌≡◌, ◌⊎◌,
}
use supabase_kubernetes.Reconciler.Ensure.{
  Result, check_existing, create_missing, created, ensure_resource, is_not_found, own,
  owner_uid_annotation, ownership_error, unchanged, update_existing, updated,
}

module _ {W T : Type 0} (o : Object T) (m : Machinery W) where
  -- `metadata.annotations["core.supabase.io/owner-uid"]`
  abbrev pub owner_uid_of : T → String
  owner_uid_of t = text_at (o.meta t).annotations owner_uid_annotation

  abbrev pub IsControlled : T → Option ObjectMeta → Type 0
  IsControlled existing none = Unit
  IsControlled existing (some owner) =
      (m.is_controlled_by (o.meta existing).owner_references owner ≡ true)
      ⊎ (owner_uid_of existing ≡ owner.uid)

  -- The object of the cluster may be updated for the owner: the owner, if any, controls it or has
  -- its UID in the annotation, and the annotation is the desired one, if one is desired.
  abbrev pub IsOurs : T → T → Option ObjectMeta → Type 0
  IsOurs existing desired owner =
      IsControlled existing owner
      × ((owner_uid_of desired ≡ "") ⊎ (owner_uid_of existing ≡ owner_uid_of desired))

  pub ownership_error-eq-none :
      (existing desired : T) (owner : Option ObjectMeta)
      → (ownership_error o m existing desired owner ≡ none) ↔ IsOurs existing desired owner
  unfolding ownership_error
  ownership_error-eq-none existing desired none =
      let d = eq_iff (owner_uid_of desired) "" in
      let e = eq_iff (owner_uid_of existing) (owner_uid_of desired) in
      (λ h. (tt, ground arith), λ h. ground arith)
  ownership_error-eq-none existing desired (some owner) =
      let d = eq_iff (owner_uid_of desired) "" in
      let e = eq_iff (owner_uid_of existing) (owner_uid_of desired) in
      let u = eq_iff (owner_uid_of existing) owner.uid in
      (λ h. (ground arith, ground arith), λ h. ground arith)

  module _ (c : Client W T) (same : T → T → Bool) (mutate : T → T → Outcome T) where
    -- An object of the cluster that is another owner's stays: the call fails and writes nothing.
    pub ensure_resource_refuses :
        (desired₀ desired existing : T) (owner : Option ObjectMeta) (w : W)
        → own o m desired₀ owner ≡ ok desired
        → c.get (o.meta desired).namespace (o.meta desired).name w ≡ ok existing
        → ¬ IsOurs existing desired owner
        → (e : Error) × (ensure_resource o m c same mutate desired₀ owner w ≡ (err e, w))
    unfolding ensure_resource check_existing
    ensure_resource_refuses desired₀ desired existing owner w owned found foreign =
        elim (Option-cases (ownership_error o m existing desired owner)) [
          | inl none_found ↦
              absurd (foreign ((ownership_error-eq-none existing desired owner).0 none_found))
          | inr (e, refused) ↦ (e, rw (owned, found, refused, check_existing) refl)
        ]

    -- What a call that succeeds has done, from the cluster `w` to the cluster `w'`.
    pub data Ensured (desired : T) (owner : Option ObjectMeta) (w : W) : Result → W → Type 0 where
      was_created :
          {e : Error} {x : T} {w' : W}
          → c.get (o.meta desired).namespace (o.meta desired).name w ≡ err e
          → e.reason ≡ not_found
          → mutate desired desired ≡ ok x
          → c.create x w ≡ (ok tt, w')
          → Ensured desired owner w created w'
      was_unchanged :
          {existing x : T}
          → c.get (o.meta desired).namespace (o.meta desired).name w ≡ ok existing
          → IsOurs existing desired owner
          → mutate existing desired ≡ ok x
          → same x existing ≡ true
          → Ensured desired owner w unchanged w
      was_updated :
          {existing x : T} {w' : W}
          → c.get (o.meta desired).namespace (o.meta desired).name w ≡ ok existing
          → IsOurs existing desired owner
          → mutate existing desired ≡ ok x
          → same x existing ≡ false
          → c.update x w ≡ (ok tt, w')
          → Ensured desired owner w updated w'

    create_missing_sound :
        (desired : T) (owner : Option ObjectMeta) (w w' : W) (r : Result) {e : Error}
        → c.get (o.meta desired).namespace (o.meta desired).name w ≡ err e
        → e.reason ≡ not_found
        → create_missing o m c same mutate desired w ≡ (ok r, w')
        → Ensured desired owner w r w'
    unfolding create_missing
    create_missing_sound desired owner w w' r absent reason run =
        let (x, mutated, rest) = lift-eq-ok (mutate desired desired) _ w run in
        let (_, w₁, sent, done) = >>=-eq-ok (c.create x) _ w rest in
        let (same_r, same_w) = ok_pair done in
        rw (← same_r, ← same_w) (was_created absent reason mutated sent)

    update_existing_sound :
        (desired existing : T) (owner : Option ObjectMeta) (w w' : W) (r : Result)
        → c.get (o.meta desired).namespace (o.meta desired).name w ≡ ok existing
        → IsOurs existing desired owner
        → update_existing o m c same mutate existing desired w ≡ (ok r, w')
        → Ensured desired owner w r w'
    unfolding update_existing
    update_existing_sound desired existing owner w w' r found ours run =
        let (x, mutated, rest) = lift-eq-ok (mutate existing desired) _ w run in
        elim (Bool-cases (same x existing)) [
          | inl equal ↦
              let (same_r, same_w) = ok_pair (rw equal at rest) in
              rw (← same_r, ← same_w) (was_unchanged found ours mutated equal)
          | inr differs ↦
              let (_, w₁, sent, done) = >>=-eq-ok (c.update x) _ w (rw differs at rest) in
              let (same_r, same_w) = ok_pair done in
              rw (← same_r, ← same_w) (was_updated found ours mutated differs sent)
        ]

    -- EnsureResource implements its contract: a call that returns without error has created the
    -- missing object, or has left an object that is ours and needs no change, or has updated one
    -- that is ours, each with the mutated object and no other write.
    pub ensure_resource_sound :
        (desired₀ : T) (owner : Option ObjectMeta) (w w' : W) (r : Result)
        → ensure_resource o m c same mutate desired₀ owner w ≡ (ok r, w')
        → (desired : T) × (own o m desired₀ owner ≡ ok desired) × Ensured desired owner w r w'
    unfolding ensure_resource check_existing
    ensure_resource_sound desired₀ owner w w' r run =
        let (desired, owned, rest) = lift-eq-ok (own o m desired₀ owner) _ w run in
        (
          desired,
          owned,
          by_read desired (c.get (o.meta desired).namespace (o.meta desired).name w) refl rest,
        )
      where
        by_read :
            (desired : T) (read : Outcome T)
            → c.get (o.meta desired).namespace (o.meta desired).name w ≡ read
            → branch read
                (λ e. if is_not_found e then create_missing o m c same mutate desired else raise e)
                (λ existing. check_existing o m c same mutate existing desired owner)
                w
              ≡ (ok r, w')
            → Ensured desired owner w r w'
        by_read desired (ok existing) found rest =
            elim (Option-cases (ownership_error o m existing desired owner)) [
              | inl none_found ↦
                  update_existing_sound desired existing owner w w' r found
                    ((ownership_error-eq-none existing desired owner).0 none_found)
                    (rw (none_found, check_existing) at rest)
              | inr (e, refused) ↦ cc (rw (refused, check_existing) at rest)
            ]
        by_read desired (err e) absent rest = elim (Bool-cases (is_not_found e)) [
          | inl missing ↦
              create_missing_sound desired owner w w' r absent (ground arith) (rw missing at rest)
          | inr failed ↦ cc (rw failed at rest)
        ]
        by_read desired panic absent rest = cc

    -- Conversely, each way that the contract allows is what EnsureResource does.
    pub ensure_resource_complete :
        (desired₀ desired : T) (owner : Option ObjectMeta) (w w' : W) (r : Result)
        → own o m desired₀ owner ≡ ok desired
        → Ensured desired owner w r w'
        → ensure_resource o m c same mutate desired₀ owner w ≡ (ok r, w')
    unfolding ensure_resource check_existing create_missing update_existing
    ensure_resource_complete desired₀ desired owner w w' r owned
          (was_created {e} absent reason mutated sent) =
        let missing : is_not_found e ≡ true = rw reason refl in
        rw (owned, absent, missing, mutated, sent) refl
    ensure_resource_complete desired₀ desired owner w w' r owned
          (was_unchanged {existing} found ours mutated equal) =
        let mine = (ownership_error-eq-none existing desired owner).1 ours in
        rw (owned, found, mine, mutated, equal, check_existing) refl
    ensure_resource_complete desired₀ desired owner w w' r owned
          (was_updated {existing} found ours mutated differs sent) =
        let mine = (ownership_error-eq-none existing desired owner).1 ours in
        rw (owned, found, mine, mutated, differs, sent, check_existing) refl
