-- ===== src/TimeRange/RoundTrip.antt =====
-- A range written to the URL and read again: rangeToParams and parseTimeParams of
-- ui/src/lib/time-range-context.tsx.
use text.Mathlib.TextLemmas.{nil-append, cons-append}
use mathlib.Core.Option.{some_inj}
use tropek.Prelude.{
  ℕ, suc, ◌≤◌, String, ◌≡◌, refl, sym, ap, ◌∙◌, inl, inr, Bool, true, false, Option, none, some,
  arith, ◌==◌, Bool-cases, Option-cases, or_default, or_else, and_then,
}
use tropek.Js.Text.{◌+++◌, decimal}
use tropek.Js.Number.{ℤ, pos, negsuc}
use tropek.Js.Text.Join.{not_empty, not_empty-append}
use tropek.Js.Text.Decimal.{digits_from-decimal, digits_value-decimal}
use tropek.Js.Digits.{
  is_digit, matches, digits_value, digits_from, digits_value-lt, matches-digits_from,
  strip_prefix-digits_from, strip_prefix-append,
}
use tropek.TimeRange.{
  RangeMode, StoredRange, default_days, preset_range, absolute_range, Browser, BrowserLaws,
  max_time, show_time, compute_from_date, date_time_pattern, date_only_pattern, until_d,
  days_then_d, preset_days, parse_absolute_token, epoch_token, parse_to, parse_absolute,
  parse_time_params, to_epoch, params_of, range_to_params,
}

until_d-digits_from :
    (s : String) (acc v : ℕ) → digits_from acc s ≡ some v → until_d acc (s +++ "d") ≡ some v
unfolding digits_from until_d is_digit
until_d-digits_from String.[] acc v e = ap (until_d acc) (nil-append "d") ∙ e
until_d-digits_from (String.◌∷◌ c s) acc v e =
    ap (until_d acc) (cons-append c s "d") ∙ elim (Bool-cases (is_digit c)) [
      | inl h ↦ rw h (until_d-digits_from s _ v (rw h at e))
      | inr h ↦ ground (arith, h, e)
    ]

days_then_d-digits_value :
    (s : String) (v : ℕ) → digits_value s ≡ some v → days_then_d (s +++ "d") ≡ some v
unfolding digits_value days_then_d digits_from
days_then_d-digits_value String.[] v e = ground (arith, e)
days_then_d-digits_value (String.◌∷◌ c s) v e =
    let read : until_d 0 (String.◌∷◌ c (s +++ "d")) ≡ some v =
      ap (until_d 0) (sym (cons-append c s "d")) ∙ until_d-digits_from (String.◌∷◌ c s) 0 v e in
    ap days_then_d (cons-append c s "d")
    ∙ elim (Bool-cases (is_digit c)) [ inl h ↦ rw h (rw h at read) | inr h ↦ ground (arith, h, e) ]

pub preset_days-days : (d : ℕ) → preset_days ("now-" +++ decimal d +++ "d") ≡ some d
unfolding preset_days
preset_days-days d =
    rw (strip_prefix-append "now-" (decimal d +++ "d"))
      (days_then_d-digits_value (decimal d) d (digits_value-decimal d))

not_empty-decimal : (n : ℕ) → (decimal n == "") ≡ false
unfolding digits_value
not_empty-decimal n = not_empty _ λ e.
    let read : none ≡ some n = ap digits_value (sym e) ∙ digits_value-decimal n in
    ground (arith, read)

not_empty-show_time : (t : Option ℤ) → (show_time t == "") ≡ false
unfolding show_time
not_empty-show_time none = refl
not_empty-show_time (some (pos n)) = not_empty-decimal n
not_empty-show_time (some (negsuc n)) = not_empty-append "-" "" (decimal (suc n))

not_empty-params_of :
    (b : Browser) (mode : RangeMode) (r : StoredRange) (p : String × Option String)
    → params_of b mode r ≡ some p
    → (p.0 == "") ≡ false
unfolding params_of
not_empty-params_of b RangeMode.preset r p e =
    let same = some_inj.0 e in
    ap (λ q. q.0 == "") (sym same)
    ∙ not_empty-append "n" "ow-" (decimal (or_default r.days default_days) +++ "d")
not_empty-params_of b RangeMode.absolute r p e =
    elim (Option-cases (or_else r.from (compute_from_date b default_days))) [
      | inl h ↦ ground (arith, e, h)
      | inr (iso, h) ↦
          ap (λ q. q.0 == "") (sym (some_inj.0 (rw h at e))) ∙ not_empty-show_time (b.time_of iso)
    ]

-- A value written for `from` is a text that is not empty.
pub not_empty-range_to_params :
    (b : Browser) (r : StoredRange) (p : String × Option String)
    → range_to_params b r ≡ some p
    → (p.0 == "") ≡ false
unfolding range_to_params
not_empty-range_to_params b r p e = not_empty-params_of b r.mode r p e

-- From 2 January 1970, 3:46:40, to the last time of a `Date`.
abbrev pub IsLate : ℕ → Type 0
IsLate a = (100000000 ≤ a) × (a ≤ max_time)

-- The ranges that the page can choose: a preset, or times given as ISO texts.
pub data IsChosen (b : Browser) : StoredRange → Type 0 where
  days : (d : ℕ) → IsChosen b (preset_range d)
  since : (a : ℕ) → IsLate a → IsChosen b (absolute_range (b.iso_of (pos a)) none)
  between :
      (a z : ℕ)
      → IsLate a
      → IsLate z
      → IsChosen b (absolute_range (b.iso_of (pos a)) (some (b.iso_of (pos z))))

module _ (b : Browser) (laws : BrowserLaws b) where
  parse_absolute_token-decimal :
      (a : ℕ) (end_of_day : Bool)
      → IsLate a
      → parse_absolute_token b (decimal a) end_of_day ≡ some (b.iso_of (pos a))
  unfolding parse_absolute_token epoch_token
  parse_absolute_token-decimal a end_of_day late =
      let value = digits_value-decimal a in
      let no_time =
        matches-digits_from date_time_pattern (decimal a) 0 a (digits_from-decimal a) refl in
      let no_date : matches date_only_pattern (decimal a) ≡ false =
        elim (Bool-cases (matches date_only_pattern (decimal a))) [
          | inl m ↦ absurd (omega (arith, digits_value-lt (decimal a) a m value, late.0))
          | inr m ↦ m
        ] in
      rw (no_time, no_date, value) (ground (arith, late.1))

  preset_days-decimal : (a : ℕ) → preset_days (decimal a) ≡ none
  unfolding preset_days
  preset_days-decimal a =
      rw (strip_prefix-digits_from "n" "ow-" (decimal a) 0 a refl (digits_from-decimal a)) refl

  -- A chosen range that is written to the URL is the one read back.
  pub parse_time_params-range_to_params :
      (r : StoredRange)
      → IsChosen b r
      → and_then (range_to_params b r) (λ p. parse_time_params b (some p.0) p.1) ≡ some r
  unfolding range_to_params params_of parse_time_params parse_absolute to_epoch parse_to show_time
  parse_time_params-range_to_params _ (IsChosen.days d) =
      rw (not_empty-append "n" "ow-" (decimal d +++ "d"), preset_days-days d) refl
  parse_time_params-range_to_params _ (IsChosen.since a late) =
      rw
        (
          laws.time_of-iso_of (pos a) late.1,
          not_empty-decimal a,
          preset_days-decimal a,
          parse_absolute_token-decimal a false late,
          laws.iso_of-not_empty (pos a),
        )
        refl
  parse_time_params-range_to_params _ (IsChosen.between a z late later) =
      rw
        (
          laws.time_of-iso_of (pos a) late.1,
          laws.iso_of-not_empty (pos z),
          not_empty-decimal a,
          preset_days-decimal a,
          parse_absolute_token-decimal a false late,
          laws.iso_of-not_empty (pos a),
          laws.time_of-iso_of (pos z) later.1,
          not_empty-decimal z,
          parse_absolute_token-decimal z true later,
        )
        refl
