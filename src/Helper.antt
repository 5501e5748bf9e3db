-- ===== src/Helper.antt =====
-- internal/helper
pub mod ClusterDomain
pub mod Env
pub mod Name
pub mod Overlay
pub mod Random
