-- ===== src/Controller/Component/Rollout.antt =====
-- internal/controller/component/resources.go: whether a workload has been rolled out.
use supabase_kubernetes.Go.Outcome.{Outcome, err, errorf, ok, panic}
use supabase_kubernetes.Go.Pure.{bind-eq-ok, ◌>>=◌}
use supabase_kubernetes.Kube.Client.{Client}
use supabase_kubernetes.Kube.Workload.{DaemonSet, Deployment, StatefulSet}
use supabase_kubernetes.Prelude.{
  Option, String, arith, eq_iff, if◌then◌else◌, ltb, none, not, refl, some, ℕ, ◌<◌, ◌==◌, ◌=s◌,
  ◌||◌, ◌↔◌, ◌≡◌, ◌≤◌,
}

-- `*workload.Spec.Replicas`, which panics at a nil pointer
abbrev pub replicas_of : Option ℕ → Outcome ℕ
replicas_of none = panic
replicas_of (some n) = ok n

unfoldable pub check_deployment : Deployment → Outcome (Unit {0})
check_deployment d =
    if ltb d.status.observed_generation d.meta.generation
    then err (errorf "waiting for Deployment rollout")
    else do
      n ← replicas_of d.spec.replicas
      if ltb d.status.ready_replicas n || ltb d.status.updated_replicas n
          then err (errorf "waiting for Deployment rollout")
          else ok tt

unfoldable pub check_stateful_set : StatefulSet → Outcome (Unit {0})
check_stateful_set s =
    if ltb s.status.observed_generation s.meta.generation
    then err (errorf "waiting for StatefulSet rollout")
    else do
      n ← replicas_of s.spec.replicas
      if ltb s.status.ready_replicas n
            || not (s.status.current_revision =s s.status.update_revision)
          then err (errorf "waiting for StatefulSet rollout")
          else ok tt

unfoldable pub check_daemon_set : DaemonSet → Outcome (Unit {0})
check_daemon_set d =
    if d.status.desired_number_scheduled == 0
    then err (errorf "no eligible nodes for Vector")
    else if ltb d.status.observed_generation d.meta.generation
        || ltb d.status.updated_number_scheduled d.status.desired_number_scheduled
        || ltb d.status.number_available d.status.desired_number_scheduled
        || ltb 0 d.status.number_misscheduled
    then err (errorf "waiting for DaemonSet rollout")
    else ok tt

unfoldable pub deployment_ready :
    {W : Type 0} → Client W Deployment → String → String → W → Outcome (Unit {0})
deployment_ready c namespace name w = do
  workload ← c.get namespace name w
  check_deployment workload

unfoldable pub stateful_set_ready :
    {W : Type 0} → Client W StatefulSet → String → String → W → Outcome (Unit {0})
stateful_set_ready c namespace name w = do
  workload ← c.get namespace name w
  check_stateful_set workload

unfoldable pub daemon_set_ready :
    {W : Type 0} → Client W DaemonSet → String → String → W → Outcome (Unit {0})
daemon_set_ready c namespace name w = do
  workload ← c.get namespace name w
  check_daemon_set workload

-- The controller has seen the latest Deployment, and all its replicas are ready and up to date.
abbrev pub IsRolledOut : Deployment → Type 0
IsRolledOut d =
    (n : ℕ) × (d.spec.replicas ≡ some n)
    × (d.meta.generation ≤ d.status.observed_generation)
    × (n ≤ d.status.ready_replicas)
    × (n ≤ d.status.updated_replicas)

check_deployment_iff : (d : Deployment) → (check_deployment d ≡ ok tt) ↔ IsRolledOut d
unfolding check_deployment
check_deployment_iff d = by_replicas d.spec.replicas refl
  where
    by_replicas :
        (o : Option ℕ) → d.spec.replicas ≡ o → (check_deployment d ≡ ok tt) ↔ IsRolledOut d
    by_replicas none e = (λ h. ground arith, λ h. cc (e, h.1))
    by_replicas (some n) e = (
      λ h. (n, e, ground arith, ground arith, ground arith),
      λ h. let (k, e', seen, fit, new) = h in ground arith,
    )

-- DeploymentReady succeeds exactly where the Deployment can be read and has been rolled out: its
-- latest generation has been observed, and all its replicas are ready and up to date.
pub deployment_ready_iff :
    {W : Type 0} (c : Client W Deployment) (namespace name : String) (w : W)
    → (deployment_ready c namespace name w ≡ ok tt)
      ↔ ((d : Deployment) × (c.get namespace name w ≡ ok d) × IsRolledOut d)
unfolding deployment_ready
deployment_ready_iff c namespace name w = (
  λ h.
      let (d, found, done) = bind-eq-ok (c.get namespace name w) (λ d. check_deployment d) h in
      (d, found, (check_deployment_iff d).0 done),
  λ h. let (d, found, out) = h in rw found ((check_deployment_iff d).1 out),
)

-- The controller has seen the latest StatefulSet, all its replicas are ready, and no revision is
-- being rolled out.
abbrev pub IsUpdated : StatefulSet → Type 0
IsUpdated s =
    (n : ℕ) × (s.spec.replicas ≡ some n)
    × (s.meta.generation ≤ s.status.observed_generation)
    × (n ≤ s.status.ready_replicas)
    × (s.status.current_revision ≡ s.status.update_revision)

check_stateful_set_iff : (s : StatefulSet) → (check_stateful_set s ≡ ok tt) ↔ IsUpdated s
unfolding check_stateful_set
check_stateful_set_iff s = by_replicas s.spec.replicas refl
  where
    by_replicas :
        (o : Option ℕ) → s.spec.replicas ≡ o → (check_stateful_set s ≡ ok tt) ↔ IsUpdated s
    by_replicas none e = (λ h. ground arith, λ h. cc (e, h.1))
    by_replicas (some n) e =
        let d = eq_iff s.status.current_revision s.status.update_revision in
        (
          λ h. (n, e, ground arith, ground arith, ground arith),
          λ h. let (k, e', seen, fit, new) = h in ground arith,
        )

-- StatefulSetReady succeeds exactly where the StatefulSet can be read and is up to date: its latest
-- generation has been observed, all its replicas are ready, and its current revision is the latest.
pub stateful_set_ready_iff :
    {W : Type 0} (c : Client W StatefulSet) (namespace name : String) (w : W)
    → (stateful_set_ready c namespace name w ≡ ok tt)
      ↔ ((s : StatefulSet) × (c.get namespace name w ≡ ok s) × IsUpdated s)
unfolding stateful_set_ready
stateful_set_ready_iff c namespace name w = (
  λ h.
      let (s, found, done) = bind-eq-ok (c.get namespace name w) (λ s. check_stateful_set s) h in
      (s, found, (check_stateful_set_iff s).0 done),
  λ h. let (s, found, out) = h in rw found ((check_stateful_set_iff s).1 out),
)

-- The DaemonSet runs on at least one node, on all that it should, on no other, and everywhere in
-- its latest form.
abbrev pub IsEverywhere : DaemonSet → Type 0
IsEverywhere d =
    (0 < d.status.desired_number_scheduled)
    × (d.meta.generation ≤ d.status.observed_generation)
    × (d.status.desired_number_scheduled ≤ d.status.updated_number_scheduled)
    × (d.status.desired_number_scheduled ≤ d.status.number_available)
    × (d.status.number_misscheduled ≡ 0)

check_daemon_set_iff : (d : DaemonSet) → (check_daemon_set d ≡ ok tt) ↔ IsEverywhere d
unfolding check_daemon_set
check_daemon_set_iff d = (
  λ h. (ground arith, ground arith, ground arith, ground arith, ground arith),
  λ h. let (some_node, seen, new, fit, exact) = h in ground arith,
)

-- DaemonSetReady succeeds exactly where the DaemonSet can be read and runs everywhere: on at least
-- one node and on each that it should, in its latest form, and on no node where it should not.
pub daemon_set_ready_iff :
    {W : Type 0} (c : Client W DaemonSet) (namespace name : String) (w : W)
    → (daemon_set_ready c namespace name w ≡ ok tt)
      ↔ ((d : DaemonSet) × (c.get namespace name w ≡ ok d) × IsEverywhere d)
unfolding daemon_set_ready
daemon_set_ready_iff c namespace name w = (
  λ h.
      let (d, found, done) = bind-eq-ok (c.get namespace name w) (λ d. check_daemon_set d) h in
      (d, found, (check_daemon_set_iff d).0 done),
  λ h. let (d, found, out) = h in rw found ((check_daemon_set_iff d).1 out),
)
