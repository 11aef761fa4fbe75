-- ===== src/Navigator.antt =====
-- ui/src/features/navigator: the heatmaps of one asset (mappers.ts) and of a group (utils.ts).
mod Tests
pub mod Types
pub mod MiniView
pub mod GroupData
