-- ===== src/Actions.antt =====
-- The bulk actions on the evaluations of a column:
-- ui/src/features/evaluations/components/actions.
pub mod Scope
pub mod Batch
pub mod Forms
pub mod ReEvaluate
mod Tests
