-- ===== src/TimeRange.antt =====
-- The time range of the page: ui/src/lib/time-range-context.tsx and ui/src/lib/search-params.ts.
-- Here the formats of the URL: parseTimeParams and rangeToParams with their helpers. A number of
-- days is exact, as a double is up to 2^53.
pub mod Provider
mod RoundTrip
mod Params
mod Sessions
mod Choices
mod Dated
mod Seeding
mod Tests
use Prim.Native.String
use Prim.Native.Char.{code}
use tropek.Prelude.{
  ℕ, zero, suc, ◌+◌, ◌-◌, ◌*◌, ◌/◌, ◌%◌, ◌≤◌, ◌<◌, String, ◌≡◌, refl, sym, ap, ◌∙◌, ◌≢◌, ◌↔◌, ◌⊎◌,
  inl, inr, Bool, true, false, not, ◌&&◌, ◌||◌, Option, none, some, List, [], ◌∷◌, ◌++◌, map,
  reverse, arith, ◌==◌, eq_iff, eq_refl, ltb, leb, eqb, if◌then◌else◌, Bool-cases, Bool_ext,
  Option-cases, or_default, or_else, and_then, map?, is_some, length, get_elem?, filter, find, any,
  All, Any, length-append, length-map, length-reverse, get_elem?-append_left,
  get_elem?-append_length, get_elem?-reverse, get_elem?-map, All-append, ltb→lt, lt→ltb, leb→le,
  eqb→eq, eqb_refl, tests, min, max,
}
use tropek.Js.Map.{
  contains, IsDistinct, Map, keys, get, set, set_all, from_entries, find_last, get-set,
  get-from_entries, contains-keys-set, keys-set-IsDistinct, contains-keys,
}
use tropek.Js.Unique.{
  unique_from, unique_by, unique, unique_by-IsDistinct, contains-unique_by, find-unique_by,
  All-unique_by, Any-of_contains, contains_of-Any,
}
use tropek.Js.Text.{◌+++◌, decimal}
use tropek.Js.MultiMap.{
  push_at, non_empty, more, more_nil, more-more, get-push_at, values, values-push_at-perm,
}
use tropek.Js.Number.{ℤ, pos, negsuc}
use tropek.Js.Digits.{is_digit, Slot, digits, matches, slice, strip_prefix, digits_value}

pub data RangeMode : Type 0 where
  preset absolute : RangeMode

pub record StoredRange : Type 0 where
  pub mode : RangeMode
  pub days : Option ℕ
  pub from : Option String
  pub to : Option String

pub record TimePreset : Type 0 where
  pub label : String
  pub days : ℕ

abbrev pub presets : List TimePreset
presets =
    record { label = "Last 7 days"; days = 7 }
    ∷ record { label = "Last 14 days"; days = 14 }
    ∷ record { label = "Last 30 days"; days = 30 }
    ∷ record { label = "Last 60 days"; days = 60 }
    ∷ record { label = "Last 90 days"; days = 90 }
    ∷ record { label = "Last 6 months"; days = 180 }
    ∷ record { label = "Last 1 year"; days = 365 }
    ∷ []

abbrev pub default_days : ℕ
default_days = 30

abbrev pub preset_range : ℕ → StoredRange
preset_range n = record { mode = RangeMode.preset; days = some n; from = none; to = none }

abbrev pub absolute_range : String → Option String → StoredRange
absolute_range from to = record {
  mode = RangeMode.absolute;
  days = none;
  from = some from;
  to = to;
}

-- What the storage holds: a text that is no JSON, a range, or another value, such as null.
pub data Parsed : Type 0 where
  not_json other_value : Parsed
  stored_range : StoredRange → Parsed

-- What the code asks of the browser: its dates, its clock and its JSON. A time is a whole number of
-- milliseconds; none is the time of an invalid date.
pub record Browser : Type 0 where
  -- `new Date(text).getTime()`
  pub time_of : String → Option ℤ
  -- `new Date(millis).toISOString()` of a valid time
  pub iso_of : ℤ → String
  -- `new Date()`
  pub now : ℤ
  -- `d.setDate(d.getDate() - days)`
  pub days_back : ℕ → ℤ → Option ℤ
  -- `d.setHours(0, 0, 0, 0)`
  pub start_of_day : ℤ → ℤ
  -- `JSON.parse` and `JSON.stringify`
  pub parse_range : String → Parsed
  pub print_range : StoredRange → String

-- The last time that a `Date` can hold.
abbrev pub max_time : ℕ
max_time = 8640000000000000

abbrev pub IsTime : ℤ → Type 0
IsTime (pos n) = n ≤ max_time
IsTime (negsuc n) = suc n ≤ max_time

-- What is documented of them. Thirty days before the clock's time there is a date.
pub record BrowserLaws (b : Browser) : Type 0 where
  pub time_of-iso_of : (t : ℤ) → IsTime t → b.time_of (b.iso_of t) ≡ some t
  pub iso_of-not_empty : (t : ℤ) → (b.iso_of t == "") ≡ false
  pub default_days-date : is_some (b.days_back default_days b.now) ≡ true

-- `String(n)`; a time that is not a number prints as NaN.
unfoldable pub show_time : Option ℤ → String
show_time none = "NaN"
show_time (some (pos n)) = decimal n
show_time (some (negsuc n)) = "-" +++ decimal (suc n)

-- None where `toISOString` throws, on an invalid date.
unfoldable pub compute_from_date : Browser → ℕ → Option String
compute_from_date b days = map? (λ d. b.iso_of (b.start_of_day d)) (b.days_back days b.now)

abbrev pub date_only_pattern : List Slot
date_only_pattern = digits 8

abbrev pub date_time_pattern : List Slot
date_time_pattern = digits 8 ++ Slot.exactly "T" ∷ digits 6

-- The rest of `/^now-(\d+)d$/` after the first digit, with the number so far.
unfoldable pub until_d : ℕ → String → Option ℕ
unfolding is_digit
until_d acc String.[] = none
until_d acc (String.◌∷◌ c s) =
    let rest = until_d (acc * 10 + (code c - 48)) s in
    if is_digit c then rest else if eqb (code c) 100 && s == "" then some acc else none

unfoldable pub days_then_d : String → Option ℕ
unfolding is_digit until_d
days_then_d String.[] = none
days_then_d (String.◌∷◌ c s) = if is_digit c then until_d 0 (String.◌∷◌ c s) else none

-- `PRESET_PATTERN.exec(from)`, with `Number` of its group.
unfoldable pub preset_days : String → Option ℕ
unfolding strip_prefix days_then_d
preset_days from = and_then (strip_prefix "now-" from) days_then_d

module _ (b : Browser) where
  unfoldable pub iso_or_null : String → Option String
  iso_or_null iso = map? b.iso_of (b.time_of iso)

  -- `${year}-${month}-${day}` of the first eight digits.
  unfoldable pub day_of : String → String
  unfolding slice
  day_of token = slice 0 4 token +++ "-" +++ slice 4 2 token +++ "-" +++ slice 6 2 token

  unfoldable pub epoch_token : ℕ → Option String
  epoch_token n = if leb n max_time then some (b.iso_of (pos n)) else none

  unfoldable pub parse_absolute_token : String → Bool → Option String
  unfolding matches digits_value day_of iso_or_null epoch_token slice
  parse_absolute_token token end_of_day =
      if matches date_time_pattern token
      then iso_or_null (
          day_of token
          +++ "T"
          +++ slice 9 2 token
          +++ ":"
          +++ slice 11 2 token
          +++ ":"
          +++ slice 13 2 token
          +++ ".000Z")
      else if matches date_only_pattern token
      then iso_or_null
          (day_of token +++ (if end_of_day then "T23:59:59.999Z" else "T00:00:00.000Z"))
      else and_then (digits_value token) epoch_token

  -- `to ? (parseAbsoluteToken(to, true) ?? undefined) : undefined`
  unfoldable pub parse_to : Option String → Option String
  unfolding parse_absolute_token
  parse_to none = none
  parse_to (some to) = if to == "" then none else parse_absolute_token to true

  unfoldable pub parse_absolute : String → Option String → Option StoredRange
  unfolding parse_absolute_token parse_to
  parse_absolute from to =
      and_then (parse_absolute_token from false)
        (λ iso. if iso == "" then none else some (absolute_range iso (parse_to to)))

  unfoldable pub parse_time_params : Option String → Option String → Option StoredRange
  unfolding preset_days parse_absolute
  parse_time_params none to = none
  parse_time_params (some from) to =
      if from == ""
      then none
      else or_else (map? preset_range (preset_days from)) (parse_absolute from to)

  -- `range.to ? String(new Date(range.to).getTime()) : undefined`
  unfoldable pub to_epoch : Option String → Option String
  unfolding show_time
  to_epoch none = none
  to_epoch (some to) = if to == "" then none else some (show_time (b.time_of to))

  -- The parameters `from` and `to`; none where computeFromDate throws.
  unfoldable pub params_of : RangeMode → StoredRange → Option (String × Option String)
  unfolding to_epoch show_time compute_from_date
  params_of RangeMode.preset range =
      some ("now-" +++ decimal (or_default range.days default_days) +++ "d", none)
  params_of RangeMode.absolute range =
      map? (λ iso. (show_time (b.time_of iso), to_epoch range.to))
        (or_else range.from (compute_from_date b default_days))

  -- The parameters `from` and `to`; none where computeFromDate throws.
  unfoldable pub range_to_params : StoredRange → Option (String × Option String)
  unfolding params_of
  range_to_params range = params_of range.mode range
