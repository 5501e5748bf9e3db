-- ===== src/Tests/Ensure.antt =====
-- The theorems on EnsureResource, UpdateStatus and ResolveRef at concrete clusters.
use text.Mathlib.TextPositions.{eq_refl}
use supabase_kubernetes.Go.Exec.Inversion.{ok_pair}
use supabase_kubernetes.Go.GoMap.{literal, nil}
use supabase_kubernetes.Go.Outcome.{Error, err, ok}
use supabase_kubernetes.Kube.Core.{ConfigMap}
use supabase_kubernetes.Kube.Meta.{Object, ObjectMeta, object_meta}
use supabase_kubernetes.Kube.Objects.{config_map_object}
use supabase_kubernetes.Prelude.{
  Bool, Option, String, [], arith, eq_iff, false≢true, inl, inr, none, refl, some, ◌=s◌, ◌∷◌, ◌≡◌,
}
use supabase_kubernetes.Reconciler.Converge.{KeepsMeta}
use supabase_kubernetes.Reconciler.Converge.ConfigMaps.{StoresConfigMap, ensure_config_map_settles}
use supabase_kubernetes.Reconciler.Ensure.{create_missing, created, ensure_resource, own, unchanged}
use supabase_kubernetes.Reconciler.Ensure.Convergence.{IsStore}
use supabase_kubernetes.Reconciler.Ensure.Laws.{
  Ensured, ensure_resource_complete, ensure_resource_refuses, ensure_resource_sound, was_unchanged,
}
use supabase_kubernetes.Reconciler.Mutate.Simple.{mutate_config_map}
use supabase_kubernetes.Reconciler.StringMap.{merge_string_maps}
use supabase_kubernetes.Tests.Objects.{single_database}
use supabase_kubernetes.Tests.World.{
  World, config_map_client, controller_reference, create_slot, find_slot, machinery,
  machinery-Controls, slot_client,
}

-- A slot answers reads with what was written.
module _ {W T : Type 0} (o : Object T) (read : W → Option T) (write : Option T → W → W)
    (read_write : (s : Option T) (w : W) → read (write s w) ≡ s) (Fits Stores : T → T → Type 0)
    (stores_refl : (x : T) → Stores x x) where
  found_written :
      (x : T) (w : W)
      → find_slot o.meta read write (o.meta x).namespace (o.meta x).name (write (some x) w) ≡ ok x
  found_written x w =
      rw (read_write (some x) w, find_slot)
        (ground (arith, eq_refl (o.meta x).namespace, eq_refl (o.meta x).name))

  created_lem :
      (x : T) (w w' : W) → create_slot o.meta read write x w ≡ (ok tt, w') → write (some x) w ≡ w'
  created_lem x w w' e = by_slot (read w) refl e
    where
      by_slot :
          (s : Option T)
          → read w ≡ s
          → create_slot o.meta read write x w ≡ (ok tt, w')
          → write (some x) w ≡ w'
      by_slot none h e = cc (rw (h, create_slot) at e)
      by_slot (some y) h e = cc (rw (h, create_slot) at e)

  found_key :
      (namespace name : String) (w : W) (t : T)
      → find_slot o.meta read write namespace name w ≡ ok t
      → ((o.meta t).namespace ≡ namespace) × ((o.meta t).name ≡ name)
  found_key namespace name w t e = by_slot (read w) refl e
    where
      by_slot :
          (s : Option T)
          → read w ≡ s
          → find_slot o.meta read write namespace name w ≡ ok t
          → ((o.meta t).namespace ≡ namespace) × ((o.meta t).name ≡ name)
      by_slot none h e = cc (rw (h, find_slot) at e)
      by_slot (some y) h e =
          let d = eq_iff (o.meta y).namespace namespace in
          let d' = eq_iff (o.meta y).name name in
          let e' = rw (h, find_slot) at e in (ground arith, ground arith)

  pub slot_store : IsStore o (slot_client o.meta read write) Fits Stores
  slot_store = record {
    create_reads = λ x w w' e. (x, rw (← created_lem x w w' e) (found_written x w), stores_refl x);
    get_key = found_key;
    update_reads = λ old x w w' found fit e.
        let (_, same) = ok_pair e in (x, rw (← same) (found_written x w), stores_refl x);
  }

pub KeepsMeta-refl : (m : ObjectMeta) → KeepsMeta m m
KeepsMeta-refl m = record {
  name = refl;
  namespace = refl;
  labels = refl;
  annotations = refl;
  owner_references = refl;
}

config_map_store : IsStore config_map_object config_map_client (λ _ _. Unit) StoresConfigMap
config_map_store =
    slot_store config_map_object (λ w. w.config_map) (λ t w. record w { config_map = t })
      (λ s w. refl) (λ _ _. Unit) StoresConfigMap
      (λ x. record { data_map = refl; meta = KeepsMeta-refl x.meta })

abbrev owner : ObjectMeta
owner = record (object_meta "p" "ns" nil) { uid = "u1" }

abbrev stranger : ObjectMeta
stranger = record (object_meta "q" "ns" nil) { uid = "u2" }

abbrev same_name : ConfigMap → ConfigMap → Bool
same_name a b = a.meta.name =s b.meta.name

abbrev config : ConfigMap
config = record {
  meta = object_meta "c" "ns" nil;
  data_map = literal (("k", "v") ∷ []);
  binary_data = "";
  rest = "";
}

abbrev owned_by : ObjectMeta → ConfigMap
owned_by o = record config {
  meta = record config.meta { owner_references = controller_reference o ∷ [] };
}

abbrev pub empty_world : World
empty_world = record {
  migration = none;
  database = some single_database;
  config_map = none;
  service = none;
  secrets = [];
  job = none;
  project = none;
  claim = none;
  stateful_set = none;
}

abbrev world_of : ConfigMap → World
world_of c = record empty_world { config_map = some c }

ensure_resource_refuses_example :
    (e : Error) × (ensure_resource config_map_object machinery config_map_client same_name
        mutate_config_map config
        (some owner)
        (world_of (owned_by stranger))
      ≡ (err e, world_of (owned_by stranger)))
ensure_resource_refuses_example =
    ensure_resource_refuses config_map_object machinery config_map_client same_name
      mutate_config_map config (owned_by owner) (owned_by stranger) (some owner)
      (world_of (owned_by stranger)) (unfold own in refl) refl
      (λ h. elim h.0 [ inl e ↦ false≢true e | inr e ↦ cc ])

first_run :
    ensure_resource config_map_object machinery config_map_client same_name mutate_config_map config
      (some owner)
      empty_world
    ≡ (ok created, world_of (owned_by owner))
unfolding ensure_resource own create_missing mutate_config_map merge_string_maps
first_run = refl

ensure_resource_sound_example :
    (desired : ConfigMap) × (own config_map_object machinery config (some owner) ≡ ok desired)
    × Ensured config_map_object machinery config_map_client same_name mutate_config_map desired
        (some owner)
        empty_world
        created
        (world_of (owned_by owner))
ensure_resource_sound_example =
    ensure_resource_sound config_map_object machinery config_map_client same_name mutate_config_map
      config (some owner) empty_world (world_of (owned_by owner)) created first_run

ensure_resource_complete_example :
    ensure_resource config_map_object machinery config_map_client same_name mutate_config_map config
      (some owner)
      (world_of (owned_by owner))
    ≡ (ok unchanged, world_of (owned_by owner))
ensure_resource_complete_example =
    ensure_resource_complete config_map_object machinery config_map_client same_name
      mutate_config_map config (owned_by owner) (some owner) (world_of (owned_by owner))
      (world_of (owned_by owner)) unchanged (unfold own in refl)
      (was_unchanged {existing = owned_by owner} {x = owned_by owner} refl (inl refl, inl refl)
        (unfold mutate_config_map merge_string_maps in refl) refl)

ensure_config_map_settles_example :
    ensure_resource config_map_object machinery config_map_client same_name mutate_config_map config
      (some owner)
      (world_of (owned_by owner))
    ≡ (ok unchanged, world_of (owned_by owner))
unfolding own
ensure_config_map_settles_example =
    ensure_config_map_settles machinery config_map_client same_name config_map_store
      (λ t. eq_refl t.meta.name) machinery-Controls config (some owner) (λ d owned. ground arith)
      empty_world (world_of (owned_by owner)) created first_run
