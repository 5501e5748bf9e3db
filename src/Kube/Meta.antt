-- ===== src/Kube/Meta.antt =====
-- Object metadata, and the interface `client.Object`.
use supabase_kubernetes.Go.GoMap.{GoMap, nil}
use supabase_kubernetes.Prelude.{List, Option, String, [], none, ℕ, ◌≡◌}

-- A third-party value that the code copies and compares as a whole. Two such values are the same
-- text exactly when `equality.Semantic.DeepEqual` finds them equal.
abbrev pub Opaque : Type 0
Opaque = String

-- intstr.IntOrString, as the code tests it
pub record IntOrString : Type 0 where
  pub int_val : ℕ
  pub str_val : String

-- metav1.LabelSelector
pub record LabelSelector : Type 0 where
  pub match_labels : GoMap String
  pub rest : Opaque

pub record OwnerReference : Type 0 where
  pub uid : String
  pub controller : Option Opaque
  pub rest : Opaque

pub record ObjectMeta : Type 0 where
  pub name : String
  pub namespace : String
  pub uid : String
  pub generation : ℕ
  pub labels : GoMap String
  pub annotations : GoMap String
  pub owner_references : List OwnerReference
  pub deletion_timestamp : Option Opaque
  pub rest : Opaque

-- metav1.ObjectMeta{Name: name, Namespace: namespace, Labels: labels}
abbrev pub object_meta : String → String → GoMap String → ObjectMeta
object_meta name namespace labels = record {
  name = name;
  namespace = namespace;
  uid = "";
  generation = 0;
  labels = labels;
  annotations = nil;
  owner_references = [];
  deletion_timestamp = none;
  rest = "";
}

-- `client.Object`: access to the metadata of an object.
pub record Object (T : Type 0) : Type 0 where
  pub meta : T → ObjectMeta
  pub with_meta : ObjectMeta → T → T
  pub meta-with_meta : (m : ObjectMeta) (t : T) → meta (with_meta m t) ≡ m
