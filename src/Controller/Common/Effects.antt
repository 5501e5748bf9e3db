-- ===== src/Controller/Common/Effects.antt =====
-- What the shared steps of the reconcilers keep, given what the client's writes keep.
use supabase_kubernetes.Controller.Common.{
  StatusWriter, ensure_built, ensure_wanted, note_not_ready, put_status,
}
use supabase_kubernetes.Go.Exec.{Exec, raise}
use supabase_kubernetes.Go.Exec.Keeps.{
  Keeps, Keeps-attempt, Keeps-if, Keeps-lift, Keeps-pure, Keeps-raise, Keeps-reads,
}
use supabase_kubernetes.Go.Outcome.{Error, Outcome}
use supabase_kubernetes.Go.Pure.{wrapped}
use supabase_kubernetes.Kube.Client.{Client, Machinery}
use supabase_kubernetes.Kube.Meta.{Object, ObjectMeta}
use supabase_kubernetes.Prelude.{Bool, Option, String, [], concat, none, refl, some, ◌∷◌, ◌≡◌}
use supabase_kubernetes.Reconciler.Ensure.{
  check_existing, create_missing, created, delete_resource_if_exists, ensure_resource, is_not_found,
  own, ownership_error, unchanged, update_existing, updated,
}
use supabase_kubernetes.Reconciler.Status.{set_not_ready}
use supabase_kubernetes.Reconciler.Status.Laws.{Keeps-update_status}

-- Every write of a client keeps `P`.
pub record WritesKeep {W T : Type 0} (c : Client W T) (P : W → Type 0) : Type 0 where
  pub create : (t : T) → Keeps P (c.create t)
  pub update : (t : T) → Keeps P (c.update t)
  pub delete : (namespace name : String) → Keeps P (c.delete namespace name)

module _ {W T : Type 0} {P : W → Type 0} (o : Object T) (m : Machinery W) (c : Client W T)
    (same : T → T → Bool) (keep : WritesKeep c P) where
  Keeps-create_missing :
      (mutate : T → T → Outcome T) (desired : T)
      → Keeps P (create_missing o m c same mutate desired)
  unfolding create_missing
  Keeps-create_missing mutate desired =
      Keeps-attempt _ raise _ (Keeps-lift _) Keeps-raise
        λ x. Keeps-attempt _ raise _ (keep.create x) Keeps-raise λ _. Keeps-pure created

  Keeps-update_existing :
      (mutate : T → T → Outcome T) (existing desired : T)
      → Keeps P (update_existing o m c same mutate existing desired)
  unfolding update_existing
  Keeps-update_existing mutate existing desired =
      Keeps-attempt _ raise _ (Keeps-lift _) Keeps-raise λ x.
        Keeps-if (same x existing) _ _ (Keeps-pure unchanged)
          (Keeps-attempt _ raise _ (keep.update x) Keeps-raise λ _. Keeps-pure updated)

  Keeps-check_existing :
      (mutate : T → T → Outcome T) (existing desired : T) (owner : Option ObjectMeta)
      → Keeps P (check_existing o m c same mutate existing desired owner)
  Keeps-check_existing mutate existing desired owner =
      by_guard (ownership_error o m existing desired owner) refl
    where
      by_guard :
          (guard : Option Error)
          → ownership_error o m existing desired owner ≡ guard
          → Keeps P (check_existing o m c same mutate existing desired owner)
      by_guard none e =
          unfold check_existing in
          rw (e, check_existing) (Keeps-update_existing mutate existing desired)
      by_guard (some x) e = unfold check_existing in rw (e, check_existing) (Keeps-raise x)

  pub Keeps-ensure_resource :
      (mutate : T → T → Outcome T) (desired : T) (owner : Option ObjectMeta)
      → Keeps P (ensure_resource o m c same mutate desired owner)
  unfolding ensure_resource
  Keeps-ensure_resource mutate desired₀ owner =
      Keeps-attempt _ raise _ (Keeps-lift (own o m desired₀ owner)) Keeps-raise λ desired.
        Keeps-attempt _ _ _
          (Keeps-reads (λ w. c.get (o.meta desired).namespace (o.meta desired).name w))
          (λ e. Keeps-if (is_not_found e) _ _ (Keeps-create_missing mutate desired) (Keeps-raise e))
          (λ existing. Keeps-check_existing mutate existing desired owner)

  pub Keeps-delete_resource_if_exists :
      (name namespace : String) → Keeps P (delete_resource_if_exists c name namespace)
  unfolding delete_resource_if_exists
  Keeps-delete_resource_if_exists name namespace =
      Keeps-attempt _ _ _ (keep.delete namespace name)
        (λ e. Keeps-if (is_not_found e) _ _ (Keeps-pure tt) (Keeps-raise e)) Keeps-pure

  pub Keeps-ensure_wanted :
      (mutate : T → T → Outcome T) (kind name namespace : String) (wanted : Option T)
      (owner : ObjectMeta)
      → Keeps P (ensure_wanted o m c same mutate kind name namespace wanted owner)
  unfolding ensure_wanted
  Keeps-ensure_wanted mutate kind name namespace none owner =
      Keeps-delete_resource_if_exists name namespace
  Keeps-ensure_wanted mutate kind name namespace (some wanted) owner =
      Keeps-attempt _ raise _
        (Keeps-attempt _ _ _ (Keeps-ensure_resource mutate wanted (some owner)) (λ e. Keeps-raise _)
          Keeps-pure)
        Keeps-raise (λ _. Keeps-pure tt)

  -- An ensure method keeps what the writes of its client keep.
  pub Keeps-ensure_built :
      (mutate : T → T → Outcome T) (kind name namespace : String) (built : Outcome (Option T))
      (owner : ObjectMeta)
      → Keeps P (ensure_built o m c same mutate kind name namespace built owner)
  unfolding ensure_built
  Keeps-ensure_built mutate kind name namespace built owner =
      Keeps-attempt _ raise _ (Keeps-lift (wrapped (concat ("building " ∷ kind ∷ [])) built))
        Keeps-raise λ wanted. Keeps-ensure_wanted mutate kind name namespace wanted owner

module _ {W T : Type 0} {P : W → Type 0} (s : StatusWriter W T) where
  pub Keeps-put_status :
      (obj : T)
      → ((latest : T) → Keeps P (s.client.update_status (s.conditioned.copy_status obj latest)))
      → Keeps P (put_status s obj)
  unfolding put_status
  Keeps-put_status obj k =
      Keeps-update_status s.conditioned s.machinery s.client s.same_status obj k

  module _ {A : Type 0} (obj : T) (reason message : String) (next : Exec W A)
      (write : (latest : T)
        → Keeps P (
            s.client.update_status (
              s.conditioned.copy_status
                (set_not_ready s.conditioned s.conditions obj reason message)
                latest))) where
    pub Keeps-note_not_ready : Keeps P next → Keeps P (note_not_ready s obj reason message next)
    unfolding note_not_ready
    Keeps-note_not_ready k =
        Keeps-attempt _ _ _
          (Keeps-put_status (set_not_ready s.conditioned s.conditions obj reason message) write)
          (λ _. k) (λ _. k)
