-- ===== src/Reconciler/Ensure/Convergence.antt =====
-- A second EnsureResource with the same desired object.
use supabase_kubernetes.Go.Outcome.{Outcome, ok}
use supabase_kubernetes.Kube.Client.{Client, Machinery}
use supabase_kubernetes.Kube.Meta.{Object, ObjectMeta}
use supabase_kubernetes.Prelude.{Bool, Option, String, true, ◌≡◌}
use supabase_kubernetes.Reconciler.Ensure.{Result, ensure_resource, own, unchanged}
use supabase_kubernetes.Reconciler.Ensure.Laws.{
  Ensured, IsOurs, ensure_resource_complete, was_created, was_unchanged, was_updated,
}

-- What the API server promises of a write that succeeds, of which `Stores x y` says that the server
-- keeps `y` when it is sent `x`: it may set what the client leaves to it. For an update this is asked
-- only where `Fits old x` holds of the object that is replaced.
pub record IsStore {W T : Type 0} (o : Object T) (c : Client W T) (Fits Stores : T → T → Type 0)
    : Type 0 where
  pub create_reads :
      (x : T) (w w' : W)
      → c.create x w ≡ (ok tt, w')
      → (y : T) × (c.get (o.meta x).namespace (o.meta x).name w' ≡ ok y) × Stores x y
  pub get_key :
      (namespace name : String) (w : W) (t : T)
      → c.get namespace name w ≡ ok t
      → ((o.meta t).namespace ≡ namespace) × ((o.meta t).name ≡ name)
  pub update_reads :
      (old x : T) (w w' : W)
      → c.get (o.meta x).namespace (o.meta x).name w ≡ ok old
      → Fits old x
      → c.update x w ≡ (ok tt, w')
      → (y : T) × (c.get (o.meta x).namespace (o.meta x).name w' ≡ ok y) × Stores x y

-- A mutated object, as the server stores it, is one that the mutation leaves alone.
pub record IsStable {W T : Type 0} (o : Object T) (m : Machinery W) (mutate : T → T → Outcome T)
    (desired : T) (owner : Option ObjectMeta) (Stores : T → T → Type 0) : Type 0 where
  pub keeps_key :
      (existing x : T)
      → mutate existing desired ≡ ok x
      → ((o.meta x).namespace ≡ (o.meta existing).namespace)
        × ((o.meta x).name ≡ (o.meta existing).name)
  pub fixed :
      (existing x y : T)
      → IsOurs o m existing desired owner
      → mutate existing desired ≡ ok x
      → Stores x y
      → (mutate y desired ≡ ok y) × IsOurs o m y desired owner

module _ {W T : Type 0} (o : Object T) (m : Machinery W) (c : Client W T) (same : T → T → Bool)
    (mutate : T → T → Outcome T) (Fits Stores : T → T → Type 0) (store : IsStore o c Fits Stores)
    (same_refl : (t : T) → same t t ≡ true) where
  module _ (desired₀ desired : T) (owner : Option ObjectMeta)
      (owned : own o m desired₀ owner ≡ ok desired) (mine : IsOurs o m desired desired owner)
      (stable : IsStable o m mutate desired owner Stores) where
    settled :
        (existing x y : T) (w' : W)
        → IsOurs o m existing desired owner
        → mutate existing desired ≡ ok x
        → Stores x y
        → c.get (o.meta desired).namespace (o.meta desired).name w' ≡ ok y
        → ensure_resource o m c same mutate desired₀ owner w' ≡ (ok unchanged, w')
    settled existing x y w' ours mutated stored read =
        let (again, still) = stable.fixed existing x y ours mutated stored in
        ensure_resource_complete o m c same mutate desired₀ desired owner w' w' unchanged owned
          (was_unchanged read still again (same_refl y))

    -- Whatever a first call did, a second one with the same desired object changes nothing.
    pub Ensured-settles :
        (w w' : W) (r : Result)
        → ((existing x : T)
            → c.get (o.meta desired).namespace (o.meta desired).name w ≡ ok existing
            → mutate existing desired ≡ ok x
            → Fits existing x)
        → Ensured o m c same mutate desired owner w r w'
        → ensure_resource o m c same mutate desired₀ owner w' ≡ (ok unchanged, w')
    Ensured-settles w w' r fits (was_created {x = x} absent reason mutated sent) =
        let (y, read, stored) = store.create_reads x w w' sent in
        let (ns, name) = stable.keeps_key desired x mutated in
        settled desired x y w' mine mutated stored (rw (ns, name) at read)
    Ensured-settles w _ r fits (was_unchanged {existing} {x} found ours mutated equal) =
        ensure_resource_complete o m c same mutate desired₀ desired owner w w unchanged owned
          (was_unchanged found ours mutated equal)
    Ensured-settles w w' r fits (was_updated {existing} {x} found ours mutated differs sent) =
        let (ns, name) = stable.keeps_key existing x mutated in
        let (ns', name') = store.get_key _ _ w existing found in
        let (y, read, stored) =
          store.update_reads existing x w w' (rw (ns, name, ns', name') found)
            (fits existing x found mutated) sent in
        settled existing x y w' ours mutated stored (rw (ns, name, ns', name') at read)
