-- ===== src/Tests.antt =====
-- The theorems at concrete inputs, on a small cluster.
pub mod World
pub mod Objects
pub mod Reconcilers
pub mod Ensure
pub mod Statuses
pub mod Services
pub mod Mutate
pub mod Workloads
pub mod Projects
pub mod Namespace
pub mod Components
pub mod Databases
pub mod Variables
pub mod Names
pub mod Site
pub mod Running
pub mod Routing
