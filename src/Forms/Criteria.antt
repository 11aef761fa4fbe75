-- ===== src/Forms/Criteria.antt =====
-- The criteria of an objective as the forms take them apart and put them together:
-- parseCriteria and serializeCriteria of ui/src/features/registry/forms/criteriaUtils.ts.
use tropek.Prelude.{
  ℕ, zero, suc, ◌+◌, ◌-◌, ◌*◌, ◌/◌, ◌%◌, ◌≤◌, ◌<◌, String, ◌≡◌, refl, sym, ap, ◌∙◌, ◌≢◌, ◌↔◌, ◌⊎◌,
  inl, inr, Bool, true, false, not, ◌&&◌, ◌||◌, Option, none, some, List, [], ◌∷◌, ◌++◌, map,
  reverse, arith, ◌==◌, eq_iff, eq_refl, ltb, leb, eqb, if◌then◌else◌, Bool-cases, Bool_ext,
  Option-cases, or_default, or_else, and_then, map?, is_some, length, get_elem?, filter, find, any,
  All, Any, length-append, length-map, length-reverse, get_elem?-append_left,
  get_elem?-append_length, get_elem?-reverse, get_elem?-map, All-append, ltb→lt, lt→ltb, leb→le,
  eqb→eq, eqb_refl, tests, min, max,
}
use tropek.Js.Map.{
  contains, IsDistinct, Map, keys, get, set, set_all, from_entries, find_last, get-set,
  get-from_entries, contains-keys-set, keys-set-IsDistinct, contains-keys,
}
use tropek.Js.Unique.{
  unique_from, unique_by, unique, unique_by-IsDistinct, contains-unique_by, find-unique_by,
  All-unique_by, Any-of_contains, contains_of-Any,
}
use tropek.Js.Text.{◌+++◌, decimal}
use tropek.Js.MultiMap.{
  push_at, non_empty, more, more_nil, more-more, get-push_at, values, values-push_at-perm,
}
use tropek.Js.Number.{NumberText}
use tropek.Js.Digits.{strip_prefix}
use tropek.Js.Trim.{trim, split_last}
pub mod RoundTrip

pub data Operator : Type 0 where
  less less_equal greater greater_equal equal : Operator

pub data Sign : Type 0 where
  plus minus : Sign

pub record CriteriaParts (Number : Type 0) : Type 0 where
  pub operator : Operator
  pub sign : Option Sign
  pub value : Number
  pub percent : Bool

abbrev pub operator_text : Operator → String
operator_text Operator.less = "<"
operator_text Operator.less_equal = "<="
operator_text Operator.greater = ">"
operator_text Operator.greater_equal = ">="
operator_text Operator.equal = "="

abbrev pub operators : List Operator
operators =
    Operator.less_equal ∷ Operator.greater_equal ∷ Operator.less ∷ Operator.greater ∷ Operator.equal
    ∷ []

abbrev pub sign_text : Option Sign → String
sign_text none = ""
sign_text (some Sign.plus) = "+"
sign_text (some Sign.minus) = "-"

-- The first operator that the text starts with, and the rest.
unfoldable pub parse_operator : List Operator → String → Option (Operator × String)
unfolding strip_prefix
parse_operator [] s = none
parse_operator (op ∷ ops) s =
    or_else (map? (λ rest. (op, rest)) (strip_prefix (operator_text op) s)) (parse_operator ops s)

unfoldable pub parse_sign : String → Option Sign × String
unfolding strip_prefix
parse_sign rest =
    or_default
      (or_else (map? (λ after. (some Sign.plus, after)) (strip_prefix "+" rest))
        (map? (λ after. (some Sign.minus, after)) (strip_prefix "-" rest)))
      (none, rest)

module _ (numbers : NumberText) where
  -- None where there is no number.
  unfoldable pub read_number :
      Operator → Option Sign → Bool × String → Option (CriteriaParts numbers.Number)
  read_number operator sign (percent, number) =
      map? (λ value. record { operator = operator; sign = sign; value = value; percent = percent })
        (numbers.parse_float number)

  -- The percent sign at the end is taken off before the number is read.
  unfoldable pub read_signed :
      Operator → Option Sign × String → Option (CriteriaParts numbers.Number)
  unfolding read_number split_last
  read_signed operator (sign, signed) = read_number operator sign (split_last 37 signed)

  unfoldable pub parse_trimmed : String → Option (CriteriaParts numbers.Number)
  unfolding read_signed parse_operator parse_sign
  parse_trimmed s =
      if s == ""
      then none
      else and_then (parse_operator operators s) (λ found. read_signed found.0 (parse_sign found.1))

  unfoldable pub parse_criteria : String → Option (CriteriaParts numbers.Number)
  unfolding trim parse_trimmed
  parse_criteria raw = parse_trimmed (trim raw)

  abbrev pub default_criteria : CriteriaParts numbers.Number
  default_criteria = record {
    operator = Operator.less;
    sign = none;
    value = numbers.of_ℕ 0;
    percent = false;
  }

  unfoldable pub serialize_criteria : CriteriaParts numbers.Number → String
  serialize_criteria parts =
      operator_text parts.operator
      +++ sign_text parts.sign
      +++ numbers.print parts.value
      +++ (if parts.percent then "%" else "")
