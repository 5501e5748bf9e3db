-- ===== src/Controller/Component/Stamp/Laws.antt =====
-- The hash that StampInputs writes, and the Secrets that the pod reads.
use supabase_kubernetes.Controller.Component.Stamp.{
  Contents, Encoding, Input, config_input, inputs_hash_key, read_contents, secret_input,
  stamp_inputs, stamped,
}
use supabase_kubernetes.Controller.Component.Stamp.Found.{
  key_of, read_inputs-finds, read_inputs-leaves,
}
use supabase_kubernetes.Controller.Component.Stamp.Reads.{PodReads, pod_inputs-Mentions}
use supabase_kubernetes.Defaults.Assets.{Digest}
use supabase_kubernetes.Go.GoMap.{index}
use supabase_kubernetes.Go.Outcome.{Outcome, ok}
use supabase_kubernetes.Go.Pure.{bind-eq-ok, ◌>>=◌}
use supabase_kubernetes.Kube.Client.{Client}
use supabase_kubernetes.Kube.Core.{ConfigMap, Secret}
use supabase_kubernetes.Kube.Pod.{PodTemplateSpec}
use supabase_kubernetes.Prelude.{Option, String, ap, inr, none, some, sym, ◌∙◌, ◌≡◌}

-- what the contents hold under a key of a Secret
abbrev pub input_entry : String → Option Input → Option String
input_entry key none = none
input_entry key (some (secret_input m)) = index m key
input_entry key (some (config_input m b)) = none

abbrev pub secret_entry : String → String → Contents → Option String
secret_entry name key contents = input_entry key (contents (key_of "secret/" name))

module _ {W : Type 0} (secrets : Client W Secret) (configs : Client W ConfigMap)
    (namespace : String) (pod : PodTemplateSpec) where
  -- Every Secret that the pod reads and that exists is among the contents.
  secret_entry-read_contents :
      (name key : String) (w : W) (s : Secret) {contents : Contents}
      → PodReads name pod
      → secrets.get namespace name w ≡ ok s
      → read_contents secrets configs namespace pod w ≡ ok contents
      → secret_entry name key contents ≡ index s.data_map key
  unfolding read_contents
  secret_entry-read_contents name key w s {contents} read_by found run =
      let (from_secrets, first, second) = bind-eq-ok _ _ run in
      let kept = read_inputs-leaves configs namespace name w _ from_secrets contents second in
      let got =
        read_inputs-finds secrets (λ s. secret_input s.data_map) "secret/" namespace name s w found
          _ _ from_secrets first (inr (pod_inputs-Mentions name pod read_by)) in
      ap (input_entry key) (kept ∙ got)

  module _ (encode : Encoding) (digest : Digest) where
    -- the text that is hashed
    abbrev pub hashed_inputs : W → Outcome String
    hashed_inputs w = read_contents secrets configs namespace pod w >>= encode

    stamp_inputs-eq-ok :
        (w : W) {p : PodTemplateSpec}
        → stamp_inputs secrets configs encode digest namespace pod w ≡ ok p
        → (contents : Contents) × (t : String) × (read_contents secrets configs namespace pod w
            ≡ ok contents)
          × (encode contents ≡ ok t)
          × (stamped pod (digest t) ≡ p)
    unfolding stamp_inputs
    stamp_inputs-eq-ok w run =
        let (contents, read, rest) = bind-eq-ok _ _ run in
        let (t, encoded, last) = bind-eq-ok _ _ rest in (contents, t, read, encoded, cc)

    -- Two pod templates that StampInputs gives at different times have the same hash only if no
    -- Secret that the pod reads has changed in between: a Secret that a volume, a projected source,
    -- a variable or an EnvFrom of a container or init container names, and that exists at both times,
    -- has the same value under every key. The encoding shows what it holds for that key, and the
    -- digest tells the two encoded texts apart when they differ.
    pub stamp_inputs_detects :
        (name key : String) (shows : String → Option String) (w w' : W) (p p' : PodTemplateSpec)
        (s s' : Secret)
        → ((contents : Contents) (t : String)
            → encode contents ≡ ok t
            → shows t ≡ secret_entry name key contents)
        → ((t t' : String)
            → hashed_inputs w ≡ ok t
            → hashed_inputs w' ≡ ok t'
            → digest t ≡ digest t'
            → t ≡ t')
        → PodReads name pod
        → secrets.get namespace name w ≡ ok s
        → secrets.get namespace name w' ≡ ok s'
        → stamp_inputs secrets configs encode digest namespace pod w ≡ ok p
        → stamp_inputs secrets configs encode digest namespace pod w' ≡ ok p'
        → index p.meta.annotations inputs_hash_key ≡ index p'.meta.annotations inputs_hash_key
        → index s.data_map key ≡ index s'.data_map key
    stamp_inputs_detects name key shows w w' p p' s s' shown apart read_by found found' run run'
          same =
        let (contents, t, read, encoded, made_p) = stamp_inputs-eq-ok w run in
        let (contents', t', read', encoded', made_p') = stamp_inputs-eq-ok w' run' in
        let texts : t ≡ t' =
          apart t t' (ap (λ m. m >>= encode) read ∙ encoded)
            (ap (λ m. m >>= encode) read' ∙ encoded') (same_hash t t' made_p made_p' same) in
        sym (secret_entry-read_contents name key w s read_by found read)
        ∙ sym (shown contents t encoded)
        ∙ ap shows texts
        ∙ shown contents' t' encoded'
        ∙ secret_entry-read_contents name key w' s' read_by found' read'
      where
        same_hash :
            (t t' : String)
            → stamped pod (digest t) ≡ p
            → stamped pod (digest t') ≡ p'
            → index p.meta.annotations inputs_hash_key ≡ index p'.meta.annotations inputs_hash_key
            → digest t ≡ digest t'
        same_hash t t' e e' same = cc (rw (sym e, sym e') at same)
