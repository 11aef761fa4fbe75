-- ===== src/Forms/Methods.antt =====
-- The criteria of each aggregation method: features/registry/forms/MethodCriteriaTable.tsx. An object
-- with no fields is the record with every field none.
pub mod Shown
use tropek.Prelude.{
  ℕ, zero, suc, ◌+◌, ◌-◌, ◌*◌, ◌/◌, ◌%◌, ◌≤◌, ◌<◌, String, ◌≡◌, refl, sym, ap, ◌∙◌, ◌≢◌, ◌↔◌, ◌⊎◌,
  inl, inr, Bool, true, false, not, ◌&&◌, ◌||◌, Option, none, some, List, [], ◌∷◌, ◌++◌, map,
  reverse, arith, ◌==◌, eq_iff, eq_refl, ltb, leb, eqb, if◌then◌else◌, Bool-cases, Bool_ext,
  Option-cases, or_default, or_else, and_then, map?, is_some, length, get_elem?, filter, find, any,
  map_from, drop_at_from, All, Any, length-append, length-map, length-reverse,
  get_elem?-append_left, get_elem?-append_length, get_elem?-reverse, get_elem?-map, All-append,
  ltb→lt, lt→ltb, leb→le, eqb→eq, eqb_refl, tests, min, max,
}
use tropek.Js.Map.{
  contains, IsDistinct, Map, keys, get, set, set_all, from_entries, find_last, get-set,
  get-from_entries, contains-keys-set, keys-set-IsDistinct, contains-keys,
}
use tropek.Js.Unique.{
  unique_from, unique_by, unique, unique_by-IsDistinct, contains-unique_by, find-unique_by,
  All-unique_by, Any-of_contains, contains_of-Any,
}
use tropek.Js.Text.{◌+++◌, decimal}
use tropek.Js.MultiMap.{
  push_at, non_empty, more, more_nil, more-more, get-push_at, values, values-push_at-perm,
}
use tropek.Js.Map.{delete_key}
use tropek.Js.Number.{NumberText}
use tropek.Entities.Slos.{MethodCriteriaOverride}

-- What a row of the table shows.
pub record EffectiveCriteria (N : Type 0) : Type 0 where
  pub pass : String
  pub weight : N
  pub key_sli : Bool
  pub has_pass_override : Bool
  pub has_weight_override : Bool
  pub has_key_sli_override : Bool

-- What the inputs of a row change.
pub data Patch (N : Type 0) : Type 0 where
  pass_text : String → Patch N
  weight_text : String → Patch N
  key_flag : Bool → Patch N

abbrev pub first_of : Option (List String) → Option String
first_of thresholds = and_then thresholds (λ ts. get_elem? ts 0)

abbrev pub keep_pass : String → Option (List String) → Option (List String)
keep_pass pass none = none
keep_pass pass (some []) = some []
keep_pass pass (some (t ∷ ts)) = if t == pass then none else some (t ∷ ts)

abbrev pub keep_key : Option Bool → Option Bool
keep_key none = none
keep_key (some key) = if key then some true else none

module _ (numbers : NumberText) where
  abbrev Override : Type 0
  Override = MethodCriteriaOverride numbers.Number

  abbrev pub no_override : Override
  no_override = record {
    method = none;
    aggregation = none;
    pass_threshold = none;
    warning_threshold = none;
    weight = none;
    key_sli = none;
  }

  unfoldable pub blueprint_pass : List String → String
  blueprint_pass criteria = or_default (get_elem? criteria 0) ""

  unfoldable pub get_effective :
      String → numbers.Number → Map Override → String → EffectiveCriteria numbers.Number
  unfolding get
  get_effective pass weight criteria method =
      let override = get criteria method in
      record {
        pass = or_default (and_then override (λ o. first_of o.pass_threshold)) pass;
        weight = or_default (and_then override (λ o. o.weight)) weight;
        key_sli = or_default (and_then override (λ o. o.key_sli)) false;
        has_pass_override = is_some (and_then override (λ o. o.pass_threshold));
        has_weight_override = is_some (and_then override (λ o. o.weight));
        has_key_sli_override = is_some (and_then override (λ o. o.key_sli));
      }

  -- `parseFloat(e.target.value) || 1`
  abbrev pub or_one : Option numbers.Number → numbers.Number
  or_one none = numbers.of_ℕ 1
  or_one (some w) = if numbers.same w (numbers.of_ℕ 0) then numbers.of_ℕ 1 else w

  unfoldable pub weight_of : String → numbers.Number
  weight_of text = or_one (numbers.parse_float text)

  -- `{ ...prev, ...patch }`
  unfoldable pub merge_patch : Patch numbers.Number → Override → Override
  unfolding weight_of
  merge_patch (Patch.pass_text text) prev = record prev { pass_threshold = some (text ∷ []) }
  merge_patch (Patch.weight_text text) prev = record prev { weight = some (weight_of text) }
  merge_patch (Patch.key_flag key) prev = record prev { key_sli = some key }

  abbrev pub keep_weight : numbers.Number → Option numbers.Number → Option numbers.Number
  keep_weight weight none = none
  keep_weight weight (some w) = if numbers.same w weight then none else some w

  -- The overrides that differ from the blueprint; the other fields are not copied.
  unfoldable pub clean : String → numbers.Number → Override → Override
  clean pass weight merged = record no_override {
    pass_threshold = keep_pass pass merged.pass_threshold;
    weight = keep_weight weight merged.weight;
    key_sli = keep_key merged.key_sli;
  }

  unfoldable pub has_fields : Override → Bool
  has_fields o = is_some o.pass_threshold || (is_some o.weight || is_some o.key_sli)

  unfoldable pub update_method :
      String → numbers.Number → Map Override → String → Patch numbers.Number → Map Override
  unfolding get set delete_key merge_patch clean has_fields
  update_method pass weight criteria method patch =
      let prev = or_default (get criteria method) no_override in
      let cleaned = clean pass weight (merge_patch patch prev) in
      if has_fields cleaned then set criteria method cleaned else delete_key criteria method
