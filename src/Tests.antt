-- ===== src/Tests.antt =====
-- Concrete runs of the model, and the theorems at concrete inputs.
pub mod Data
pub mod Releases
pub mod Sources
pub mod Tags
pub mod Services
pub mod Updates
pub mod Panels
pub mod Migrations
pub mod Connects
pub mod Packages
mod Apts
pub mod Configs
