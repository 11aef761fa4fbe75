-- ===== src/TimeRange/Provider.antt =====
-- The provider of the time range, as a state: TimeRangeProvider of
-- ui/src/lib/time-range-context.tsx with loadRange and saveRange, and withTimeParamsLast of
-- ui/src/lib/search-params.ts. `localStorage.setItem` is taken to succeed.
use tropek.Prelude.{
  ℕ, String, Bool, true, false, not, ◌&&◌, ◌||◌, Option, none, some, List, [], ◌∷◌, ◌==◌, eqb,
  if◌then◌else◌, or_default, or_else, and_then, map?, find,
}
use tropek.Js.Map.{get}
use tropek.Js.Text.{◌+++◌, decimal}
use tropek.Js.Digits.{take_text}
use tropek.Js.SearchParams.{remove, set_param}
use tropek.TimeRange.{
  RangeMode, StoredRange, Parsed, TimePreset, presets, default_days, preset_range, absolute_range,
  Browser, compute_from_date, parse_time_params, range_to_params,
}

-- The entries but for `from` and `to`, in order.
unfoldable pub other_params : List (String × String) → List (String × String)
other_params [] = []
other_params ((key, value) ∷ m) =
    let rest = other_params m in if key == "from" || key == "to" then rest else (key, value) ∷ rest

unfoldable pub set_given : Option String → String → List (String × String) → List (String × String)
unfolding set_param
set_given none name m = m
set_given (some value) name m = set_param m name value

unfoldable pub with_time_params_last : List (String × String) → List (String × String)
unfolding other_params set_given get
with_time_params_last search =
    set_given (get search "to") "to" (set_given (get search "from") "from" (other_params search))

-- The URL, the item of localStorage, and what the last render kept: the range and the values of
-- `from` and `to` that it was computed for.
pub record Provider : Type 0 where
  pub search : List (String × String)
  pub stored : Option String
  pub range : StoredRange
  pub url_from : Option String
  pub url_to : Option String

abbrev pub same_text : Option String → Option String → Bool
same_text none none = true
same_text none (some t) = false
same_text (some s) none = false
same_text (some s) (some t) = s == t

unfoldable pub has_text : Option String → Bool
has_text none = false
has_text (some s) = not (s == "")

-- `if (params.to) search.set('to', params.to) else search.delete('to')`
unfoldable pub put_to : Option String → List (String × String) → List (String × String)
unfolding set_param remove
put_to none search = remove search "to"
put_to (some to) search = if to == "" then remove search "to" else set_param search "to" to

-- The parameters with a range written over them.
unfoldable pub put_params : String × Option String → List (String × String) → List (String × String)
unfolding put_to with_time_params_last
put_params (from, to) search = with_time_params_last (put_to to (set_param search "from" from))

unfoldable pub is_absolute : RangeMode → Bool
is_absolute RangeMode.preset = false
is_absolute RangeMode.absolute = true

-- None for a value that is no range: the render throws for null, and what it makes of a value of
-- another shape is not modelled.
unfoldable pub range_in : Parsed → Option StoredRange
range_in Parsed.not_json = some (preset_range default_days)
range_in Parsed.other_value = none
range_in (Parsed.stored_range range) = some range

module _ (b : Browser) where
  unfoldable pub load_range : Option String → Option StoredRange
  unfolding range_in
  load_range none = some (preset_range default_days)
  load_range (some text) =
      if text == "" then some (preset_range default_days) else range_in (b.parse_range text)

  unfoldable pub save_range : StoredRange → Provider → Provider
  save_range range p = record p { stored = some (b.print_range range) }

  unfoldable pub resolve : Option String → Option String → Option String → Option StoredRange
  unfolding parse_time_params load_range
  resolve from to stored = or_else (parse_time_params b from to) (load_range stored)

  -- The `from` of the context; none where computeFromDate throws.
  unfoldable pub context_from : StoredRange → Option String
  unfolding compute_from_date has_text is_absolute
  context_from range =
      let computed = compute_from_date b (or_default range.days default_days) in
      if is_absolute range.mode && has_text range.from then range.from else computed

  -- What a render keeps, once it has computed `from` for the range.
  unfoldable pub with_range : List (String × String) → Option String → StoredRange → Option Provider
  unfolding context_from get
  with_range search stored range =
      map?
        (λ from. record {
          search = search;
          stored = stored;
          range = range;
          url_from = get search "from";
          url_to = get search "to";
        })
        (context_from range)

  -- The first render; none where it throws.
  unfoldable pub mount : List (String × String) → Option String → Option Provider
  unfolding resolve with_range get
  mount search stored =
      and_then (resolve (get search "from") (get search "to") stored) (with_range search stored)

  -- A later render: useMemo keeps the range, and what was computed for it, while `from` and `to` stay.
  unfoldable pub render : Provider → Option Provider
  unfolding mount get
  render p =
      if same_text (get p.search "from") p.url_from && same_text (get p.search "to") p.url_to
      then some p
      else mount p.search p.stored

  -- None where computeFromDate throws.
  unfoldable pub write_range : StoredRange → Provider → Option Provider
  unfolding put_params range_to_params
  write_range next p =
      map? (λ params. record p { search = put_params params p.search }) (range_to_params b next)

  unfoldable pub effect : Provider → Option Provider
  unfolding save_range write_range has_text
  effect p = if has_text p.url_from then some (save_range p.range p) else write_range p.range p

  -- A render and its effect; none where one of them throws.
  unfoldable pub commit : Provider → Option Provider
  unfolding render effect
  commit p = and_then (render p) effect

  unfoldable pub set_range : StoredRange → Provider → Option Provider
  unfolding save_range write_range
  set_range next p = write_range next (save_range next p)

  unfoldable pub set_days : ℕ → Provider → Option Provider
  unfolding set_range
  set_days days p = set_range (preset_range days) p

  unfoldable pub set_absolute_range : String → Option String → Provider → Option Provider
  unfolding set_range
  set_absolute_range from to p = set_range (absolute_range from to) p

unfoldable pub context_to : StoredRange → Option String
unfolding is_absolute
context_to range = if is_absolute range.mode then range.to else none

unfoldable pub preset_of : StoredRange → TimePreset
preset_of range =
    or_default (and_then range.days (λ d. find (λ candidate. eqb candidate.days d) presets))
      (record { label = "Last 30 days"; days = 30 })

unfoldable pub absolute_label : String → Option String → String
unfolding has_text take_text
absolute_label from to =
    let to_label = or_default (map? (take_text 10) to) "now" in
    take_text 10 from +++ " to " +++ (if has_text to then to_label else "now")

unfoldable pub days_label : ℕ → String
days_label days =
    or_default (map? (λ c. c.label) (find (λ candidate. eqb candidate.days days) presets))
      ("Last " +++ decimal days +++ " days")

unfoldable pub label_of : StoredRange → String
unfolding has_text absolute_label days_label is_absolute
label_of range =
    let from = or_default range.from "" in
    if is_absolute range.mode && has_text range.from
    then absolute_label from range.to
    else days_label (or_default range.days default_days)
