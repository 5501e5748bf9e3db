-- ===== src/Controller.antt =====
-- internal/controller: the reconcilers.
pub mod Common
pub mod Migration
pub mod Project
pub mod Component
pub mod SingleDatabase
pub mod Storage
pub mod Studio
pub mod EdgeRuntime
pub mod Supavisor
pub mod Envoy
pub mod Analytics
