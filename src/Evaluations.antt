-- ===== src/Evaluations.antt =====
-- features/evaluations: the domain types and their mappers, the requests, and the hooks.
mod Tests
pub mod Domain
pub mod Dto
pub mod Mappers
pub mod Hooks
pub mod Inputs
pub mod Categories
pub mod Requests
pub mod Trend
