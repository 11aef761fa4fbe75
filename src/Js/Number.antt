-- ===== src/Js/Number.antt =====
-- JavaScript's floating-point numbers, as the code uses them where rounding matters. They are a
-- parameter with no laws: what is proved over them holds of IEEE arithmetic as it is.
use mathlib.Core.Bool.{Bool}
use mathlib.Core.Option.{Option}
use Prim.Native.String.{String}
use Prim.Native.Nat.{ℕ, ◌+◌, ◌*◌, ◌/◌}

pub record Arithmetic : Type 1 where
  pub Number : Type 0
  pub of_ℕ : ℕ → Number
  pub add : Number → Number → Number
  pub mul : Number → Number → Number
  pub div : Number → Number → Number
  -- `Math.round`
  pub round : Number → Number

-- Whole numbers, for the examples.
abbrev pub whole : Arithmetic
whole = record { Number = ℕ; of_ℕ = λ n. n; add = ◌+◌; mul = ◌*◌; div = ◌/◌; round = λ n. n }

-- Whole numbers below zero too: `negsuc n` is `-(n + 1)`.
pub data ℤ : Type 0 where
  pos : ℕ → ℤ
  negsuc : ℕ → ℤ

-- Numbers that forms read and print: `===`, `parseFloat`, none for NaN, and `String`. They are a
-- parameter.
pub record NumberText : Type 1 where
  pub Number : Type 0
  pub of_ℕ : ℕ → Number
  pub same : Number → Number → Bool
  pub parse_float : String → Option Number
  pub print : Number → String
