-- ===== src/Reconciler.antt =====
-- internal/reconciler: bringing one object of the cluster to its desired state, and statuses.
pub mod Ensure
pub mod StringMap
pub mod Mutate
pub mod Status
pub mod Converge
