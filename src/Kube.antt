-- ===== src/Kube.antt =====
-- The Kubernetes types that the operator reads and writes, with the fields that it uses, and the
-- calls of client libraries as parameters. A field `rest` holds what the operator only passes on.
pub mod Meta
pub mod Client
pub mod Condition
pub mod Pod
pub mod Workload
pub mod Core
pub mod Objects
