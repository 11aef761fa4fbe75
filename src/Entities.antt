-- ===== src/Entities.antt =====
-- What the registry keeps: the entities and how the answers of the API become them.
pub mod Assets
pub mod Datasources
pub mod Slis
pub mod SloGroups
pub mod ChangePoints
pub mod Slos
pub mod Members
mod Tests
