-- ===== src/Reconciler/Mutate/Pods/Laws.antt =====
-- Merging containers, twice, and what the API server has filled in.
use mathlib.Core.Path.{ap₂}
use supabase_kubernetes.Kube.Pod.{Container, PodTemplateSpec, Probe}
use supabase_kubernetes.Prelude.{
  All, All-map, List, Option, String, [], ap, arith, eq_iff, map, map_congr, none, refl, some, ◌∙◌,
  ◌∷◌, ◌≡◌, ◌≢◌,
}
use supabase_kubernetes.Reconciler.Mutate.Pods.{
  container_or_blank, existing_by_name, merge_container, merge_containers, merge_named,
  merge_pod_spec, merge_pod_template_spec, merge_probe,
}
use supabase_kubernetes.Reconciler.Mutate.Service.{text_or}

-- The containers of a pod have distinct names.
abbrev pub HasDistinctNames : List Container → Type 0
HasDistinctNames [] = Unit
HasDistinctNames (c ∷ cs) = All (λ e. c.name ≢ e.name) cs × HasDistinctNames cs

text_or_idem : (d e : String) → text_or d (text_or d e) ≡ text_or d e
text_or_idem d e = ground arith

merge_probe_idem :
    (existing desired : Option Probe)
    → merge_probe (merge_probe existing desired) desired ≡ merge_probe existing desired
unfolding merge_probe
merge_probe_idem existing none = refl
merge_probe_idem none (some d) = ground arith
merge_probe_idem (some e) (some d) = ground arith

merge_container_idem :
    (existing desired : Container)
    → merge_container (merge_container existing desired) desired ≡ merge_container existing desired
merge_container_idem e d =
    unfold merge_container in
    simp (
      merge_probe_idem e.liveness_probe d.liveness_probe,
      merge_probe_idem e.readiness_probe d.readiness_probe,
      merge_probe_idem e.startup_probe d.startup_probe,
      text_or_idem d.termination_message_path e.termination_message_path,
      text_or_idem d.termination_message_policy e.termination_message_policy,
    )

name-merge_named :
    (existing : List Container) (d : Container) → (merge_named existing d).name ≡ d.name
unfolding merge_named merge_container
name-merge_named existing d = refl

-- A name that no desired container has is not among the results.
existing_by_name_absent :
    (existing ds : List Container) (name : String)
    → All (λ d. name ≢ d.name) ds
    → existing_by_name (map (merge_named existing) ds) name ≡ none
unfolding existing_by_name
existing_by_name_absent existing [] name h = refl
existing_by_name_absent existing (d ∷ ds) name h = ground (
  arith,
  existing_by_name_absent existing ds name h.1,
  eq_iff (merge_named existing d).name name,
  name-merge_named existing d,
)

own_result :
    (existing : List Container) (d : Container) (ds : List Container)
    → existing_by_name (map (merge_named existing) ds) d.name ≡ none
    → existing_by_name (map (merge_named existing) (d ∷ ds)) d.name ≡ some (merge_named existing d)
unfolding existing_by_name
own_result existing d ds h =
    ground (arith, h, eq_iff (merge_named existing d).name d.name, name-merge_named existing d)

later_result :
    (c : Container) (cs : List Container) (name : String) {x : Container}
    → existing_by_name cs name ≡ some x
    → existing_by_name (c ∷ cs) name ≡ some x
unfolding existing_by_name
later_result c cs name h = ground arith

-- Each desired container finds its own result.
found_results :
    (existing ds : List Container)
    → HasDistinctNames ds
    → All
        (λ d.
          existing_by_name (map (merge_named existing) ds) d.name ≡ some (merge_named existing d))
        ds
found_results existing [] h = tt
found_results existing (d ∷ ds) h = (
  own_result existing d ds (existing_by_name_absent existing ds d.name h.0),
  All-map ds
      (λ e found.
        later_result (merge_named existing d) (map (merge_named existing) ds) e.name found)
      (found_results existing ds h.1),
)

merge_named_again :
    (existing results : List Container) (d : Container)
    → existing_by_name results d.name ≡ some (merge_named existing d)
    → merge_named results d ≡ merge_named existing d
merge_named_again existing results d found =
    let again =
      merge_container_idem (container_or_blank (existing_by_name existing d.name) d.name) d in
    unfold merge_named in
    rw (ap (λ o. container_or_blank o d.name) found ∙ unfold merge_named in refl) again

-- A second merge with the same desired containers, of distinct names, changes nothing.
pub merge_containers_idem :
    (existing desired : List Container)
    → HasDistinctNames desired
    → merge_containers (merge_containers existing desired) desired
      ≡ merge_containers existing desired
unfolding merge_containers
merge_containers_idem existing [] h = refl
merge_containers_idem existing (d ∷ ds) h =
    map_congr (merge_named (map (merge_named existing) (d ∷ ds))) (merge_named existing) (d ∷ ds) (
      All-map (d ∷ ds)
        (λ e found. merge_named_again existing (map (merge_named existing) (d ∷ ds)) e found)
        (found_results existing (d ∷ ds) h))

-- The names of the merged containers are the desired ones, in order.
pub names-merge_containers :
    (existing : List Container) (d : Container) (ds : List Container)
    → map (λ c. c.name) (merge_containers existing (d ∷ ds)) ≡ map (λ c. c.name) (d ∷ ds)
unfolding merge_containers
names-merge_containers existing d ds = go (d ∷ ds)
  where
    go :
        (es : List Container)
        → map (λ c. c.name) (map (merge_named existing) es) ≡ map (λ c. c.name) es
    go [] = refl
    go (e ∷ es) = ap₂ ◌∷◌ (name-merge_named existing e) (go es)

-- What a pod template asks of its containers.
pub record HasDistinctContainers (t : PodTemplateSpec) : Type 0 where
  pub init_containers : HasDistinctNames t.spec.init_containers
  pub containers : HasDistinctNames t.spec.containers

-- A second merge with the same desired template changes nothing.
pub merge_pod_template_spec_idem :
    (existing desired : PodTemplateSpec)
    → HasDistinctContainers desired
    → merge_pod_template_spec (merge_pod_template_spec existing desired) desired
      ≡ merge_pod_template_spec existing desired
merge_pod_template_spec_idem e d h =
    unfold merge_pod_template_spec merge_pod_spec in
    simp (
      merge_containers_idem e.spec.init_containers d.spec.init_containers h.init_containers,
      merge_containers_idem e.spec.containers d.spec.containers h.containers,
    )
