-- ===== src/TimeRange/Tests.antt =====
-- The theorems about the time range at concrete inputs, with a browser whose ISO texts are signed
-- numbers.
use tropek.Prelude.{
  ℕ, ◌+◌, String, ◌≡◌, refl, true, false, Option, none, some, List, [], ◌∷◌, arith, ◌==◌, or_else,
  and_then, map?,
}
use tropek.Js.Map.{get}
use tropek.Js.Text.{decimal}
use tropek.Js.Number.{ℤ, pos, negsuc}
use tropek.Js.Digits.{digits_value, strip_prefix}
use tropek.Js.Text.Join.{not_empty-cons}
use tropek.Js.Text.Decimal.{digits_value-decimal}
use tropek.TimeRange.{
  Parsed, preset_range, Browser, BrowserLaws, StoredRange, absolute_range, parse_time_params,
  range_to_params,
}
use tropek.TimeRange.RoundTrip.{IsChosen, parse_time_params-range_to_params}
use tropek.TimeRange.Sessions.{Reached}
use tropek.TimeRange.Seeding.{effect-settles}
use tropek.TimeRange.Choices.{IsUsed, set_range-IsUsed}
use tropek.TimeRange.Provider.{
  context_from, Provider, mount, effect, commit, set_range, other_params, has_text,
}

abbrev read_iso : String → Option ℤ
read_iso s =
    or_else (map? pos (and_then (strip_prefix "+" s) digits_value))
      (map? negsuc (and_then (strip_prefix "-" s) digits_value))

abbrev print_iso : ℤ → String
print_iso (pos n) = String.◌∷◌ "+" (decimal n)
print_iso (negsuc n) = String.◌∷◌ "-" (decimal n)

abbrev signed : Browser
signed = record {
  time_of = read_iso;
  iso_of = print_iso;
  now = pos 1784073600000;
  days_back = λ days t. some t;
  start_of_day = λ t. t;
  parse_range = λ s. Parsed.not_json;
  print_range = λ r. "{}";
}

read_iso-print_iso : (t : ℤ) → read_iso (print_iso t) ≡ some t
unfolding strip_prefix
read_iso-print_iso (pos n) = rw (digits_value-decimal n) refl
read_iso-print_iso (negsuc n) = rw (digits_value-decimal n) refl

print_iso-not_empty : (t : ℤ) → (print_iso t == "") ≡ false
print_iso-not_empty (pos n) = not_empty-cons "+" (decimal n)
print_iso-not_empty (negsuc n) = not_empty-cons "-" (decimal n)

signed_laws : BrowserLaws signed
signed_laws = record {
  time_of-iso_of = λ t h. read_iso-print_iso t;
  iso_of-not_empty = print_iso-not_empty;
  default_days-date = refl;
}

abbrev july : ℕ
july = 1784073600000

abbrev week : StoredRange
week = absolute_range (print_iso (pos july)) (some (print_iso (pos (july + 604800000))))

week-IsChosen : IsChosen signed week
week-IsChosen =
    IsChosen.between july (july + 604800000) (ground arith, ground arith)
      (ground arith, ground arith)

abbrev asset_page : List (String × String)
asset_page = ("asset", "web") ∷ ("tab", "slo") ∷ []

parse_time_params-range_to_params_example :
    and_then (range_to_params signed week) (λ p. parse_time_params signed (some p.0) p.1)
    ≡ some week
parse_time_params-range_to_params_example =
    parse_time_params-range_to_params signed signed_laws week week-IsChosen

-- Eight digits of milliseconds are read as a date.
eight_digits : parse_time_params signed (some "12345678") none ≡ none
unfolding parse_time_params
eight_digits = refl

abbrev bare : Provider
bare = record {
  search = asset_page;
  stored = none;
  range = preset_range 30;
  url_from = none;
  url_to = none;
}

bare-mounted : mount signed asset_page none ≡ some bare
unfolding mount
bare-mounted = refl

set_range-IsUsed_example :
    (q : Provider) × (and_then (set_range signed week bare) (commit signed) ≡ some q)
    × IsUsed signed week bare q
unfolding context_from decimal
set_range-IsUsed_example =
    set_range-IsUsed signed signed_laws bare week (print_iso (pos july))
      (Reached.mounted asset_page none bare bare-mounted) week-IsChosen refl

effect-settles_example :
    (p q : Provider) × (effect signed bare ≡ some p)
    × (commit signed p ≡ some q)
    × (commit signed q ≡ some q)
    × (q.stored ≡ some (signed.print_range q.range))
    × (has_text (get q.search "from") ≡ true)
    × (other_params q.search ≡ other_params asset_page)
effect-settles_example = effect-settles signed asset_page none bare signed_laws bare-mounted
