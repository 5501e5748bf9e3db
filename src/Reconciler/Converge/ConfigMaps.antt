-- ===== src/Reconciler/Converge/ConfigMaps.antt =====
-- EnsureResource with MutateConfigMap, called again.
use mathlib.Core.Path.{subst}
use supabase_kubernetes.Go.Outcome.{ok}
use supabase_kubernetes.Kube.Client.{Client, Machinery}
use supabase_kubernetes.Kube.Core.{ConfigMap}
use supabase_kubernetes.Kube.Meta.{ObjectMeta}
use supabase_kubernetes.Kube.Objects.{config_map_object}
use supabase_kubernetes.Prelude.{Bool, Option, ap, arith, true, ◌∙◌, ◌≡◌}
use supabase_kubernetes.Reconciler.Converge.{
  Controls, IsOurs-stored, IsPlain, KeepsMeta, merge_meta_stored, own-IsOurs,
}
use supabase_kubernetes.Reconciler.Ensure.{Result, ensure_resource, own, unchanged}
use supabase_kubernetes.Reconciler.Ensure.Convergence.{IsStable, IsStore, Ensured-settles}
use supabase_kubernetes.Reconciler.Ensure.Laws.{ensure_resource_sound}
use supabase_kubernetes.Reconciler.Mutate.Simple.{merge_meta, mutate_config_map}

-- What the server keeps of a ConfigMap.
pub record StoresConfigMap (x y : ConfigMap) : Type 0 where
  pub data_map : y.data_map ≡ x.data_map
  pub meta : KeepsMeta x.meta y.meta

mutated_meta :
    (e d x : ConfigMap) → mutate_config_map e d ≡ ok x → x.meta ≡ merge_meta e.meta d.meta
unfolding mutate_config_map
mutated_meta e d x h = ground arith

mutated_data : (e d x : ConfigMap) → mutate_config_map e d ≡ ok x → x.data_map ≡ d.data_map
unfolding mutate_config_map
mutated_data e d x h = ground arith

mutate_fixed :
    (d y : ConfigMap)
    → y.data_map ≡ d.data_map
    → merge_meta y.meta d.meta ≡ y.meta
    → mutate_config_map y d ≡ ok y
unfolding mutate_config_map
mutate_fixed d y p q = ground arith

mutate_config_map_stable :
    {W : Type 0} (m : Machinery W) (desired : ConfigMap) (owner : Option ObjectMeta)
    → IsPlain desired.meta
    → IsStable config_map_object m mutate_config_map desired owner StoresConfigMap
mutate_config_map_stable m desired owner plain = record {
  keeps_key = λ e x h. (
    ap (λ q. q.namespace) (mutated_meta e desired x h),
    ap (λ q. q.name) (mutated_meta e desired x h),
  );
  fixed = λ e x y ours h s.
      let kept : KeepsMeta (merge_meta e.meta desired.meta) y.meta =
        subst (λ q. KeepsMeta q y.meta) (mutated_meta e desired x h) s.meta in
      (
        mutate_fixed desired y (s.data_map ∙ mutated_data e desired x h)
            (merge_meta_stored e.meta desired.meta y.meta kept),
        IsOurs-stored config_map_object m e y desired owner plain kept ours,
      );
}

-- After an EnsureResource of a ConfigMap that returned without error, a second one with the same
-- desired ConfigMap writes nothing and reports it unchanged, if the API server answers reads with
-- what was last written, an object equals itself for DeepEqual, SetControllerReference makes the
-- owner the controller, and the desired ConfigMap does not ask for an empty owner UID.
pub ensure_config_map_settles :
    {W : Type 0} (m : Machinery W) (c : Client W ConfigMap) (same : ConfigMap → ConfigMap → Bool)
    → IsStore config_map_object c (λ _ _. Unit) StoresConfigMap
    → ((t : ConfigMap) → same t t ≡ true)
    → Controls m
    → (desired : ConfigMap) (owner : Option ObjectMeta)
    → ((d : ConfigMap) → own config_map_object m desired owner ≡ ok d → IsPlain d.meta)
    → (w w' : W) (r : Result)
    → ensure_resource config_map_object m c same mutate_config_map desired owner w ≡ (ok r, w')
    → ensure_resource config_map_object m c same mutate_config_map desired owner w'
      ≡ (ok unchanged, w')
ensure_config_map_settles m c same store reflexive controls desired owner plain w w' r run =
    let (d, owned, done) =
      ensure_resource_sound config_map_object m c same mutate_config_map desired owner w w' r run in
    Ensured-settles config_map_object m c same mutate_config_map (λ _ _. Unit) StoresConfigMap store
      reflexive desired d owner owned
      (own-IsOurs config_map_object m controls desired d owner owned)
      (mutate_config_map_stable m d owner (plain d owned)) w w' r (λ _ _ _ _. tt) done
