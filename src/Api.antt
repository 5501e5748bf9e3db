-- ===== src/Api.antt =====
-- api/v1alpha1: the custom resources. Only the fields that the modelled code uses are written out.
pub mod Common
pub mod Components
pub mod Databases
pub mod Migrations
pub mod Projects
