-- ===== src/Js.antt =====
-- The parts of JavaScript's library that the code relies on: insertion-ordered `Map` and `Set`
-- with text keys, and the pieces of template strings. No file of the repository is modelled here.
pub mod Map
pub mod Unique
pub mod Text
pub mod MultiMap
pub mod Number
pub mod Sort
pub mod Digits
pub mod Trim
pub mod SearchParams
