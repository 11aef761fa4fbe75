-- ===== src/Forms.antt =====
-- The forms of the registry: features/registry/forms of the web interface.
pub mod Criteria
pub mod Tags
pub mod Rows
pub mod Wizard
pub mod Methods
pub mod PickSli
pub mod Comparison
mod Tests
