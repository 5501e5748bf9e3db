-- ===== src/Reconciler/Mutate/Simple.antt =====
-- MutateSecret, MutateConfigMap and MutateMigration
pub mod Laws
use supabase_kubernetes.Api.Migrations.{Migration}
use supabase_kubernetes.Go.GoMap.{GoMap, assign, index, text_at}
use supabase_kubernetes.Go.Outcome.{Outcome, err, ok, panic}
use supabase_kubernetes.Kube.Core.{ConfigMap, Secret}
use supabase_kubernetes.Kube.Meta.{ObjectMeta}
use supabase_kubernetes.Prelude.{List, String, [], none, some, ◌∷◌}
use supabase_kubernetes.Reconciler.StringMap.{merge_string_maps}

-- The loop of MutateSecret over the key names.
unfoldable pub copy_missing : List String → GoMap String → GoMap String → Outcome (GoMap String)
copy_missing [] existing desired = ok existing
copy_missing (key ∷ keys) existing desired = elim (index existing key) [
  | some _ ↦ copy_missing keys existing desired
  | none ↦ elim (assign existing key (text_at desired key)) [
    | ok existing' ↦ copy_missing keys existing' desired
    | err e ↦ err e
    | panic ↦ panic
  ]
]

-- A missing key of `desired` is read as the empty value.
unfoldable pub mutate_secret : List String → Secret → Secret → Outcome Secret
mutate_secret keys existing desired = elim (copy_missing keys existing.data_map desired.data_map) [
  | ok entries ↦ ok (record existing { data_map = entries })
  | err e ↦ err e
  | panic ↦ panic
]

-- `existing.Labels = desired.Labels` and the merge of the annotations
abbrev pub merge_meta : ObjectMeta → ObjectMeta → ObjectMeta
merge_meta existing desired = record existing {
  labels = desired.labels;
  annotations = merge_string_maps existing.annotations desired.annotations;
}

unfoldable pub mutate_config_map : ConfigMap → ConfigMap → Outcome ConfigMap
mutate_config_map existing desired =
    ok (record existing {
      data_map = desired.data_map;
      meta = merge_meta existing.meta desired.meta;
    })

unfoldable pub mutate_migration : Migration → Migration → Outcome Migration
mutate_migration existing desired =
    ok (record existing { spec = desired.spec; meta = merge_meta existing.meta desired.meta })
