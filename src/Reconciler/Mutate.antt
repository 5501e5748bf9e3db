-- ===== src/Reconciler/Mutate.antt =====
-- internal/reconciler/mutate.go: what an update changes in the object of the cluster. Each function
-- takes the object of the cluster and the desired one, and returns the mutated object.
pub mod Simple
pub mod Pvc
pub mod Service
pub mod Pods
pub mod Workloads
