-- ===== src/Charts.antt =====
-- The charts: the watchdog of their tooltips and the labels of the notes above them.
pub mod Labels
pub mod Tooltip
mod Tests
