-- ===== src/Controller/Component/Stamp.antt =====
-- StampInputs and podInputs of internal/controller/component/resources.go: a pod template with a
-- hash of the Secrets and ConfigMaps that the pod reads.
pub mod Reads
pub mod Found
pub mod Laws
use supabase_kubernetes.Defaults.Assets.{Digest}
use supabase_kubernetes.Go.GoMap.{GoMap, index, made, with_entry}
use supabase_kubernetes.Go.Outcome.{Outcome, err, ok, panic}
use supabase_kubernetes.Go.Pure.{◌>>=◌}
use supabase_kubernetes.Kube.Client.{Client}
use supabase_kubernetes.Kube.Core.{ConfigMap, Secret}
use supabase_kubernetes.Kube.Meta.{Opaque}
use supabase_kubernetes.Kube.Pod.{
  Container, EnvFrom, EnvVar, EnvVarSource, KeySelector, ObjectRef, PodTemplateSpec, Projection,
  Volume,
}
use supabase_kubernetes.Prelude.{
  Bool, List, Option, String, [], concat, false, if◌then◌else◌, none, some, ◌&&◌, ◌++◌, ◌=s◌, ◌∷◌,
}
use supabase_kubernetes.Reconciler.Ensure.{is_not_found}

-- a map from names to whether the object is optional, in the order in which the names were added;
-- Go's order is random, which matters only for which of several errors is returned
abbrev pub Optional : Type 0
Optional = List (String × Bool)

-- `inputs[name] = optional`
unfoldable pub note_input : String → Bool → Optional → Optional
note_input name optional [] = (name, optional) ∷ []
note_input name optional ((k, v) ∷ inputs) =
    if k =s name then (k, optional) ∷ inputs else (k, v) ∷ note_input name optional inputs

-- `ref.Optional != nil && *ref.Optional`
abbrev pub is_optional : Option Bool → Bool
is_optional none = false
is_optional (some b) = b

unfoldable pub note_object : Option ObjectRef → Optional → Optional
note_object none inputs = inputs
note_object (some ref) inputs = note_input ref.name (is_optional ref.optional) inputs

unfoldable pub note_key : Option KeySelector → Optional → Optional
note_key none inputs = inputs
note_key (some ref) inputs = note_input ref.name (is_optional ref.optional) inputs

-- the Secrets and the ConfigMaps
abbrev pub Inputs : Type 0
Inputs = Optional × Optional

unfoldable pub note_sources : List Projection → Inputs → Inputs
note_sources [] inputs = inputs
note_sources (source ∷ sources) (secrets, configs) =
    note_sources sources (note_object source.secret secrets, note_object source.config_map configs)

abbrev pub projections : Option (List Projection) → List Projection
projections none = []
projections (some sources) = sources

unfoldable pub note_volumes : List Volume → Inputs → Inputs
unfolding note_object note_sources note_input
note_volumes [] inputs = inputs
note_volumes (v ∷ vs) (secrets, configs) = note_volumes vs (
    note_sources (projections v.projected)
      (note_object v.secret secrets, note_object v.config_map configs))

unfoldable pub note_source : Option EnvVarSource → Inputs → Inputs
note_source none inputs = inputs
note_source (some source) (secrets, configs) =
    (note_key source.secret_key_ref secrets, note_key source.config_map_key_ref configs)

unfoldable pub note_env : List EnvVar → Inputs → Inputs
unfolding note_source note_key note_input
note_env [] inputs = inputs
note_env (e ∷ es) inputs = note_env es (note_source e.value_from inputs)

unfoldable pub note_env_from : List EnvFrom → Inputs → Inputs
unfolding note_object note_input
note_env_from [] inputs = inputs
note_env_from (e ∷ es) (secrets, configs) =
    note_env_from es (note_object e.secret_ref secrets, note_object e.config_map_ref configs)

unfoldable pub note_containers : List Container → Inputs → Inputs
unfolding note_env note_env_from
note_containers [] inputs = inputs
note_containers (c ∷ cs) inputs =
    note_containers cs (note_env_from c.env_from (note_env c.env inputs))

unfoldable pub pod_inputs : PodTemplateSpec → Inputs
unfolding note_volumes note_containers
pod_inputs pod =
    note_containers (pod.spec.containers ++ pod.spec.init_containers)
      (note_volumes pod.spec.volumes ([], []))

-- what a Secret or a ConfigMap contributes to the hash
pub data Input : Type 0 where
  secret_input : GoMap String → Input
  config_input : GoMap String → Opaque → Input

-- the map that is hashed, by key
abbrev pub Contents : Type 0
Contents = String → Option Input

-- json.Marshal on this map, which sorts the keys
abbrev pub Encoding : Type 0
Encoding = Contents → Outcome String

-- one of the two loops: each object is read; an optional one may be missing
unfoldable pub read_inputs :
    {W T : Type 0}
    → Client W T
    → (T → Input)
    → (prefix namespace : String) → Optional
    → Contents
    → W
    → Outcome Contents
read_inputs c input prefix namespace [] contents w = ok contents
read_inputs c input prefix namespace ((name, optional) ∷ rest) contents w =
    elim (c.get namespace name w) [
      | ok t ↦
          read_inputs c input prefix namespace rest
            (with_entry contents (concat (prefix ∷ name ∷ [])) (input t)) w
      | err e ↦
          let skipped = read_inputs c input prefix namespace rest contents w in
          if optional && is_not_found e then skipped else err e
      | panic ↦ panic
    ]

-- the annotation; a nil map is made first
abbrev pub inputs_hash_key : String
inputs_hash_key = "core.supabase.io/inputs-hash"

abbrev pub stamped : PodTemplateSpec → String → PodTemplateSpec
stamped pod hash = record pod {
  meta = record pod.meta {
    annotations = made (with_entry (index pod.meta.annotations) inputs_hash_key hash);
  };
}

module _ {W : Type 0} (secrets : Client W Secret) (configs : Client W ConfigMap) where
  -- the contents of all inputs of a pod
  unfoldable pub read_contents : String → PodTemplateSpec → W → Outcome Contents
  read_contents namespace pod w = do
    from_secrets ←
        read_inputs secrets (λ s. secret_input s.data_map) "secret/" namespace (pod_inputs pod).0
          (λ k. none) w
    read_inputs configs (λ c. config_input c.data_map c.binary_data) "config/" namespace
        (pod_inputs pod).1 from_secrets w

  -- StampInputs, which only reads
  unfoldable pub stamp_inputs :
      Encoding → Digest → String → PodTemplateSpec → W → Outcome PodTemplateSpec
  unfolding read_contents
  stamp_inputs encode digest namespace pod w = do
    contents ← read_contents namespace pod w
    encoded ← encode contents
    ok (stamped pod (digest encoded))
