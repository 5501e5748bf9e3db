-- ===== src/Controller/Component/Stamp/Reads.antt =====
-- The Secrets that a pod reads, told without podInputs, and those that podInputs finds.
use mathlib.Core.Path.{subst}
use supabase_kubernetes.Controller.Component.Stamp.{
  Inputs, Optional, is_optional, note_containers, note_env, note_env_from, note_input, note_key,
  note_object, note_source, note_sources, note_volumes, pod_inputs, projections,
}
use supabase_kubernetes.Kube.Pod.{
  Container, EnvFrom, EnvVar, EnvVarSource, KeySelector, ObjectRef, PodTemplateSpec, Projection,
  Volume,
}
use supabase_kubernetes.Prelude.{
  Bool, Bool-cases, List, Option, String, [], eq_iff, inl, inr, none, refl, some, sym, ◌++◌, ◌=s◌,
  ◌∷◌, ◌≡◌, ◌⊎◌,
}

abbrev pub Any {ℓ} : {A : Type ℓ} → (A → Type 0) → List A → Type 0
Any P [] = ⊥
Any P (x ∷ xs) = P x ⊎ Any P xs

abbrev NamesObject : String → Option ObjectRef → Type 0
NamesObject name none = ⊥
NamesObject name (some ref) = ref.name ≡ name

abbrev NamesKey : String → Option EnvVarSource → Type 0
NamesKey name none = ⊥
NamesKey name (some source) = elim source.secret_key_ref [ none ↦ ⊥ | some ref ↦ ref.name ≡ name ]

-- A container reads a Secret by one of its variables, or takes all variables of it.
abbrev pub ContainerReads : String → Container → Type 0
ContainerReads name c =
    Any (λ e. NamesKey name e.value_from) c.env
    ⊎ Any (λ e. NamesObject name e.secret_ref) c.env_from

-- A volume shows a Secret, by itself or as one of several sources.
abbrev pub VolumeReads : String → Volume → Type 0
VolumeReads name v =
    NamesObject name v.secret
    ⊎ Any (λ (s : Projection). NamesObject name s.secret) (projections v.projected)

-- A volume, a container or an init container reads the Secret.
abbrev pub PodReads : String → PodTemplateSpec → Type 0
PodReads name pod =
    Any (VolumeReads name) pod.spec.volumes
    ⊎ Any (ContainerReads name) (pod.spec.containers ++ pod.spec.init_containers)

-- A name is among the inputs.
abbrev pub Mentions : String → Optional → Type 0
Mentions name inputs = Any (λ (q : String × Bool). q.0 ≡ name) inputs

module _ (name : String) where
  note_input-Mentions :
      (optional : Bool) (inputs : Optional) → Mentions name (note_input name optional inputs)
  unfolding note_input
  note_input-Mentions optional [] = inl refl
  note_input-Mentions optional ((k, v) ∷ inputs) = elim (Bool-cases (k =s name)) [
    | inl same ↦ rw same (inl ((eq_iff k name).0 same))
    | inr apart ↦ rw apart (inr (note_input-Mentions optional inputs))
  ]

  note_input-keeps :
      (k' : String) (optional : Bool) (inputs : Optional)
      → Mentions name inputs
      → Mentions name (note_input k' optional inputs)
  unfolding note_input
  note_input-keeps k' optional [] h = absurd h
  note_input-keeps k' optional ((k, v) ∷ inputs) h = elim (Bool-cases (k =s k')) [
    | inl same ↦ rw same h
    | inr apart ↦ rw apart (later (note_input-keeps k' optional inputs) h)
  ]
    where
      later :
          (Mentions name inputs → Mentions name (note_input k' optional inputs))
          → (k ≡ name) ⊎ Mentions name inputs
          → (k ≡ name) ⊎ Mentions name (note_input k' optional inputs)
      later keep (inl e) = inl e
      later keep (inr m) = inr (keep m)

  object-Mentions :
      (o : Option ObjectRef) (inputs : Optional)
      → NamesObject name o ⊎ Mentions name inputs
      → Mentions name (note_object o inputs)
  unfolding note_object
  object-Mentions none inputs (inl h) = absurd h
  object-Mentions none inputs (inr m) = m
  object-Mentions (some ref) inputs (inl e) =
      subst (λ n. Mentions name (note_input n (is_optional ref.optional) inputs)) (sym e)
        (note_input-Mentions (is_optional ref.optional) inputs)
  object-Mentions (some ref) inputs (inr m) =
      note_input-keeps ref.name (is_optional ref.optional) inputs m

  source-Mentions :
      (o : Option EnvVarSource) (inputs : Inputs)
      → NamesKey name o ⊎ Mentions name inputs.0
      → Mentions name (note_source o inputs).0
  unfolding note_source note_key
  source-Mentions none inputs (inl h) = absurd h
  source-Mentions none inputs (inr m) = m
  source-Mentions (some source) (secrets, configs) h = by_key source.secret_key_ref h
    where
      by_key :
          (key : Option KeySelector)
          → (elim key [ none ↦ ⊥ | some ref ↦ ref.name ≡ name ]) ⊎ Mentions name secrets
          → Mentions name (note_key key secrets)
      by_key none (inl h) = absurd h
      by_key none (inr m) = m
      by_key (some ref) (inl e) =
          subst (λ n. Mentions name (note_input n (is_optional ref.optional) secrets)) (sym e)
            (note_input-Mentions (is_optional ref.optional) secrets)
      by_key (some ref) (inr m) = note_input-keeps ref.name (is_optional ref.optional) secrets m

  -- A loop that notes what its elements name, and keeps what was noted before.
  loop {ℓ} :
      {A : Type ℓ} (P : A → Type 0) (xs : List A) (inputs : Inputs) (step : A → Inputs → Inputs)
      (run : List A → Inputs → Inputs)
      → ((i : Inputs) → run [] i ≡ i)
      → ((x : A) (ys : List A) (i : Inputs) → run (x ∷ ys) i ≡ run ys (step x i))
      → ((x : A) (i : Inputs) → P x ⊎ Mentions name i.0 → Mentions name (step x i).0)
      → Any P xs ⊎ Mentions name inputs.0
      → Mentions name (run xs inputs).0
  loop P [] inputs step run base next one (inl h) = absurd h
  loop P [] inputs step run base next one (inr m) = rw base m
  loop P (x ∷ xs) inputs step run base next one h =
      rw next (loop P xs (step x inputs) step run base next one (after h))
    where
      after : (P x ⊎ Any P xs) ⊎ Mentions name inputs.0 → Any P xs ⊎ Mentions name (step x inputs).0
      after (inl (inl p)) = inr (one x inputs (inl p))
      after (inl (inr a)) = inl a
      after (inr m) = inr (one x inputs (inr m))

  sources-Mentions :
      (sources : List Projection) (inputs : Inputs)
      → Any (λ (s : Projection). NamesObject name s.secret) sources ⊎ Mentions name inputs.0
      → Mentions name (note_sources sources inputs).0
  unfolding note_sources
  sources-Mentions sources inputs =
      loop (λ (s : Projection). NamesObject name s.secret) sources inputs
        (λ s i. (note_object s.secret i.0, note_object s.config_map i.1)) note_sources (λ i. refl)
        (λ s ss i. refl) (λ s i. object-Mentions s.secret i.0)

  env-Mentions :
      (env : List EnvVar) (inputs : Inputs)
      → Any (λ (e : EnvVar). NamesKey name e.value_from) env ⊎ Mentions name inputs.0
      → Mentions name (note_env env inputs).0
  unfolding note_env
  env-Mentions env inputs =
      loop (λ (e : EnvVar). NamesKey name e.value_from) env inputs (λ e. note_source e.value_from)
        note_env (λ i. refl) (λ e es i. refl) (λ e i. source-Mentions e.value_from i)

  env_from-Mentions :
      (env : List EnvFrom) (inputs : Inputs)
      → Any (λ (e : EnvFrom). NamesObject name e.secret_ref) env ⊎ Mentions name inputs.0
      → Mentions name (note_env_from env inputs).0
  unfolding note_env_from
  env_from-Mentions env inputs =
      loop (λ (e : EnvFrom). NamesObject name e.secret_ref) env inputs
        (λ e i. (note_object e.secret_ref i.0, note_object e.config_map_ref i.1)) note_env_from
        (λ i. refl) (λ e es i. refl) (λ e i. object-Mentions e.secret_ref i.0)

  container-Mentions :
      (c : Container) (i : Inputs)
      → ContainerReads name c ⊎ Mentions name i.0
      → Mentions name (note_env_from c.env_from (note_env c.env i)).0
  container-Mentions c i (inl (inl h)) =
      env_from-Mentions c.env_from (note_env c.env i) (inr (env-Mentions c.env i (inl h)))
  container-Mentions c i (inl (inr h)) = env_from-Mentions c.env_from (note_env c.env i) (inl h)
  container-Mentions c i (inr m) =
      env_from-Mentions c.env_from (note_env c.env i) (inr (env-Mentions c.env i (inr m)))

  containers-Mentions :
      (cs : List Container) (inputs : Inputs)
      → Any (ContainerReads name) cs ⊎ Mentions name inputs.0
      → Mentions name (note_containers cs inputs).0
  unfolding note_containers
  containers-Mentions cs inputs =
      loop (ContainerReads name) cs inputs (λ c i. note_env_from c.env_from (note_env c.env i))
        note_containers (λ i. refl) (λ c cs i. refl) container-Mentions

  volume-Mentions :
      (v : Volume) (i : Inputs)
      → VolumeReads name v ⊎ Mentions name i.0
      → Mentions name
          (note_sources
            (projections v.projected)
            (note_object v.secret i.0, note_object v.config_map i.1)).0
  volume-Mentions v i (inl (inl h)) =
      sources-Mentions (projections v.projected) _ (inr (object-Mentions v.secret i.0 (inl h)))
  volume-Mentions v i (inl (inr h)) = sources-Mentions (projections v.projected) _ (inl h)
  volume-Mentions v i (inr m) =
      sources-Mentions (projections v.projected) _ (inr (object-Mentions v.secret i.0 (inr m)))

  volumes-Mentions :
      (vs : List Volume) (inputs : Inputs)
      → Any (VolumeReads name) vs ⊎ Mentions name inputs.0
      → Mentions name (note_volumes vs inputs).0
  unfolding note_volumes
  volumes-Mentions vs inputs =
      loop (VolumeReads name) vs inputs
        (λ v i.
          note_sources (projections v.projected)
            (note_object v.secret i.0, note_object v.config_map i.1))
        note_volumes (λ i. refl) (λ v vs i. refl) volume-Mentions

  -- every Secret that a pod reads is among its inputs
  pub pod_inputs-Mentions :
      (pod : PodTemplateSpec) → PodReads name pod → Mentions name (pod_inputs pod).0
  unfolding pod_inputs
  pod_inputs-Mentions pod (inl h) =
      containers-Mentions (pod.spec.containers ++ pod.spec.init_containers) _
        (inr (volumes-Mentions pod.spec.volumes ([], []) (inl h)))
  pod_inputs-Mentions pod (inr h) =
      containers-Mentions (pod.spec.containers ++ pod.spec.init_containers) _ (inl h)
