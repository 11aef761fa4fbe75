-- ===== src/Registry.antt =====
-- ui/src/features/registry: the sidebar trees of the SLO registry (useRegistryTree.ts).
mod Tests
pub mod Types
pub mod Names
pub mod Bindings
pub mod SloTree
pub mod AssetTree
pub mod Filter
