-- ===== src/Defaults/Component.antt =====
-- The parts that the builders in internal/defaults have in common. A component that is not part of
-- the context has no objects.
pub mod Analytics
pub mod Auth
pub mod EdgeRuntime
pub mod Envoy
pub mod Meta
pub mod Realtime
pub mod Rest
pub mod Storage
pub mod Studio
pub mod Supavisor
use supabase_kubernetes.Api.Common.{ResolvedDatabase, ServiceTemplate}
use supabase_kubernetes.Defaults.Context.{Context, Tools, component_name}
use supabase_kubernetes.Defaults.Shapes.{
  claim, cluster_service, default_claim_spec, deployment, stateful_set,
}
use supabase_kubernetes.Go.GoMap.{GoMap}
use supabase_kubernetes.Go.Outcome.{Outcome, ok, panic}
use supabase_kubernetes.Go.Pure.{◌>>=◌}
use supabase_kubernetes.Go.Strconv.{itoa}
use supabase_kubernetes.Helper.ClusterDomain.{service_fqdn}
use supabase_kubernetes.Helper.Env.{env_var_from_secret}
use supabase_kubernetes.Helper.Overlay.{
  overlay, overlay_persistent_volume_claim_spec, overlay_service,
}
use supabase_kubernetes.Kube.Core.{
  PersistentVolumeClaim, PersistentVolumeClaimSpec, Service, ServicePort,
}
use supabase_kubernetes.Kube.Meta.{ObjectMeta}
use supabase_kubernetes.Kube.Pod.{EnvVar, PodTemplateSpec}
use supabase_kubernetes.Kube.Workload.{Deployment, StatefulSet}
use supabase_kubernetes.Prelude.{List, Option, String, [], concat, none, some, ℕ, ◌∷◌}

-- `if spec.Replicas != nil { return spec.Replicas }; return ptr.To(int32(1))`
abbrev pub replicas_or_one : Option ℕ → Option ℕ
replicas_or_one none = some 1
replicas_or_one (some n) = some n

-- a Service under the template of the spec
unfoldable pub built_service :
    Tools
    → ObjectMeta
    → GoMap String
    → List ServicePort
    → Option ServiceTemplate
    → Outcome (Option Service)
built_service t meta selector ports user = do
  service ← overlay_service t.json t.services (cluster_service meta selector ports) user
  ok (some service)

-- a Deployment of a pod under the template of the spec
unfoldable pub built_deployment :
    Tools
    → ObjectMeta
    → Option ℕ
    → GoMap String
    → PodTemplateSpec
    → Option PodTemplateSpec
    → Outcome (Option Deployment)
built_deployment t meta replicas selector pod user = do
  template ← overlay t.json t.pods pod user
  ok (some (deployment meta replicas selector template))

unfoldable pub built_stateful_set :
    Tools
    → ObjectMeta
    → String
    → Option ℕ
    → GoMap String
    → PodTemplateSpec
    → Option PodTemplateSpec
    → Outcome (Option StatefulSet)
built_stateful_set t meta service_name replicas selector pod user = do
  template ← overlay t.json t.pods pod user
  ok (some (stateful_set meta service_name replicas selector template))

unfoldable pub built_claim :
    Tools → ObjectMeta → Option PersistentVolumeClaimSpec → Outcome (Option PersistentVolumeClaim)
built_claim t meta user = do
  spec ← overlay_persistent_volume_claim_spec t.json t.claims default_claim_spec user
  ok (some (claim meta spec))

-- `*project.Spec.JWTExpSec`, which panics at a nil pointer
abbrev pub jwt_exp_sec : Context → Outcome ℕ
jwt_exp_sec ctx = elim ctx.spec.project.jwt_exp_sec [ none ↦ panic | some n ↦ ok n ]

-- `fmt.Sprintf("http://%s:%d", helper.ServiceFQDN(name, ctx.Namespace), port)`
unfoldable pub service_url : Tools → Context → String → ℕ → String
service_url t ctx name port = concat (
    "http://"
    ∷ service_fqdn t.cluster_domain name ctx.project.meta.namespace
    ∷ ":"
    ∷ itoa port
    ∷ [])

-- `fmt.Sprintf("<prefix>@%s:%s/%s", db.Host, strconv.Itoa(int(db.Port)), db.DBName)`
unfoldable pub database_url : String → ResolvedDatabase → String
database_url prefix db =
    concat (prefix ∷ "@" ∷ db.host ∷ ":" ∷ itoa db.port ∷ "/" ∷ db.db_name ∷ [])

-- `helper.EnvVarFromSecret(name, db.PasswordRef.Name, db.PasswordRef.Key)`
unfoldable pub password_env_var : String → ResolvedDatabase → EnvVar
password_env_var name db = env_var_from_secret name db.password_ref.name db.password_ref.key

-- EnvoyServiceName and DefaultEnvoyPort, which three packages declare
unfoldable pub envoy_service_name : Tools → Context → String
envoy_service_name t ctx = component_name t ctx "Envoy" "envoy"

abbrev pub default_envoy_port : ℕ
default_envoy_port = 8000
