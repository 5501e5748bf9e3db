-- ===== src/Api/Common.antt =====
-- api/v1alpha1/common_types.go
use supabase_kubernetes.Kube.Core.{ServiceSpec}
use supabase_kubernetes.Kube.Meta.{ObjectMeta}
use supabase_kubernetes.Prelude.{Bool, String, arith, eq_iff, true, ℕ, ◌&&◌, ◌=s◌, ◌↔◌, ◌≡◌}

pub record SecretKeyRef : Type 0 where
  pub name : String
  pub key : String

pub record ResolvedDatabase : Type 0 where
  pub host : String
  pub port : ℕ
  pub db_name : String
  pub user : String
  pub password_ref : SecretKeyRef

pub record DatabaseRef : Type 0 where
  pub kind : String
  pub name : String

pub record ServiceTemplate : Type 0 where
  pub meta : ObjectMeta
  pub spec : ServiceSpec

-- Go's `==` on two DatabaseRef values.
unfoldable pub database_ref_eq : DatabaseRef → DatabaseRef → Bool
database_ref_eq a b = (a.kind =s b.kind) && (a.name =s b.name)

pub database_ref_eq_iff : (a b : DatabaseRef) → (database_ref_eq a b ≡ true) ↔ (a ≡ b)
unfolding database_ref_eq
database_ref_eq_iff a b = (
  λ h. ground (arith, eq_iff a.kind b.kind, eq_iff a.name b.name),
  λ h. ground (arith, eq_iff a.kind b.kind, eq_iff a.name b.name),
)
