-- ===== src/Defaults.antt =====
-- internal/defaults: the objects that the operator wants, built from the custom resources.
pub mod Assets
pub mod Component
pub mod Context
pub mod Images
pub mod Shapes
pub mod Migration
pub mod Project
pub mod SingleDatabase
