-- ===== src/Evaluations/Trend.antt =====
-- features/evaluations/hooks/useMetricTrendState.ts: the targets of a metric's trend, which of them
-- are shown, and the toggles. The numbers are a parameter with the test `is_zero`, and
-- `a.localeCompare(b) <= 0` is the parameter `locale_le`.
pub mod Targets
pub mod Keys
pub mod Toggles
use Prim.Native.Char.{code}
use Prim.Native.String
use tropek.Prelude.{
  ℕ, zero, suc, ◌+◌, ◌-◌, ◌*◌, ◌/◌, ◌%◌, ◌≤◌, ◌<◌, String, ◌≡◌, refl, sym, ap, ◌∙◌, ◌≢◌, ◌↔◌, ◌⊎◌,
  inl, inr, Bool, true, false, not, ◌&&◌, ◌||◌, Option, none, some, List, [], ◌∷◌, ◌++◌, map,
  reverse, arith, ◌==◌, eq_iff, eq_refl, ltb, leb, eqb, if◌then◌else◌, Bool-cases, Bool_ext,
  Option-cases, or_default, or_else, and_then, map?, is_some, length, get_elem?, filter, find, any,
  All, Any, length-append, length-map, length-reverse, get_elem?-append_left,
  get_elem?-append_length, get_elem?-reverse, get_elem?-map, All-append, ltb→lt, lt→ltb, leb→le,
  eqb→eq, eqb_refl, tests, min, max,
}
use tropek.Js.Map.{
  contains, IsDistinct, Map, keys, get, set, set_all, from_entries, find_last, get-set,
  get-from_entries, contains-keys-set, keys-set-IsDistinct, contains-keys,
}
use tropek.Js.Unique.{
  unique_from, unique_by, unique, unique_by-IsDistinct, contains-unique_by, find-unique_by,
  All-unique_by, Any-of_contains, contains_of-Any,
}
use tropek.Js.Text.{◌+++◌, decimal, is_white_space}
use tropek.Js.MultiMap.{
  push_at, non_empty, more, more_nil, more-more, get-push_at, values, values-push_at-perm,
}
use tropek.Js.Sort.{sort}
use tropek.Evaluations.Domain.{PassTarget, TrendTargets, TrendPoint}

pub data Level : Type 0 where
  pass warn : Level

unfoldable pub level_text : Level → String
level_text Level.pass = "pass"
level_text Level.warn = "warn"

unfoldable pub is_level : Level → Level → Bool
is_level Level.pass Level.pass = true
is_level Level.warn Level.warn = true
is_level _ _ = false

-- `/[%]/.test(criteria)`
unfoldable pub has_percent : String → Bool
has_percent String.[] = false
has_percent (String.◌∷◌ c s) = eqb (code c) 37 || has_percent s

abbrev pub is_sign : ℕ → Bool
is_sign c = eqb c 43 || eqb c 45

-- `<`, `=` and `>`
abbrev pub is_comparison : ℕ → Bool
is_comparison c = leb 60 c && leb c 62

-- `\s*[+-]`
unfoldable pub signed_next : String → Bool
unfolding is_white_space
signed_next String.[] = false
signed_next (String.◌∷◌ c s) = is_sign (code c) || (is_white_space (code c) && signed_next s)

-- `[<>=]*\s*[+-]`
unfoldable pub compared_next : String → Bool
unfolding signed_next
compared_next String.[] = false
compared_next (String.◌∷◌ c s) =
    let rest = compared_next s in
    if is_comparison (code c) then rest else signed_next (String.◌∷◌ c s)

-- `/^[<>=]+=?\s*[+-]/.test(criteria)`; what `=?` takes, the class before it takes as well.
unfoldable pub is_signed : String → Bool
unfolding compared_next
is_signed String.[] = false
is_signed (String.◌∷◌ c s) = is_comparison (code c) && compared_next s

unfoldable pub is_relative : String → Bool
unfolding has_percent is_signed
is_relative criteria = has_percent criteria || is_signed criteria

unfoldable pub target_key : Level → String → String
unfolding level_text
target_key level criteria = level_text level +++ ":" +++ criteria

-- The values of the map in `discoverTargets`.
pub record TargetInfo : Type 0 where
  pub level : Level
  pub criteria : String
  pub has_non_zero : Bool

pub record DiscoveredTarget : Type 0 where
  pub key : String
  pub level : Level
  pub criteria : String
  pub always_zero : Bool

unfoldable pub discovered_target : String × TargetInfo → DiscoveredTarget
discovered_target (key, info) = record {
  key = key;
  level = info.level;
  criteria = info.criteria;
  always_zero = not info.has_non_zero;
}

module _ (locale_le : String → String → Bool) where
  -- The comparison of the sort gives at most 0.
  unfoldable pub target_before : DiscoveredTarget → DiscoveredTarget → Bool
  unfolding is_level is_relative
  target_before x y =
      if is_level x.level y.level
      then (if is_relative x.criteria
          then is_relative y.criteria && locale_le x.criteria y.criteria
          else is_relative y.criteria || locale_le x.criteria y.criteria)
      else is_level x.level Level.pass

module _ {N : Type 0} (is_zero : N → Bool) where
  -- What the loop makes of the value at the key of an entry.
  unfoldable pub info_of : Level → PassTarget N → Option TargetInfo → TargetInfo
  info_of level e none = record {
    level = level;
    criteria = e.criteria;
    has_non_zero = not (is_zero e.target_value);
  }
  info_of level e (some existing) =
      if is_zero e.target_value then existing else record existing { has_non_zero = true }

  -- `for (const e of entries)`
  unfoldable pub note_entries : Level → Map TargetInfo → List (PassTarget N) → Map TargetInfo
  unfolding info_of target_key
  note_entries level m [] = m
  note_entries level m (e ∷ es) =
      let key = target_key level e.criteria in
      note_entries level (set m key (info_of level e (get m key))) es

  unfoldable pub note_targets : Map TargetInfo → Option (TrendTargets N) → Map TargetInfo
  unfolding note_entries
  note_targets m none = m
  note_targets m (some t) = note_entries Level.warn (note_entries Level.pass m t.pass) t.warn

  unfoldable pub note_points :
      {D : Type 0} → Map TargetInfo → List (TrendPoint N D) → Map TargetInfo
  unfolding note_targets
  note_points m [] = m
  note_points m (p ∷ ps) = note_points (note_targets m p.targets) ps

  unfoldable pub discover_targets :
      {D : Type 0} → (String → String → Bool) → List (TrendPoint N D) → List DiscoveredTarget
  unfolding note_points discovered_target target_before
  discover_targets locale_le trend =
      sort (target_before locale_le) (map discovered_target (note_points [] trend))

unfoldable pub entries_at : {N : Type 0} → Level → TrendTargets N → List (PassTarget N)
entries_at Level.pass t = t.pass
entries_at Level.warn t = t.warn

unfoldable pub get_target_value : {N D : Type 0} → TrendPoint N D → Level → String → Option N
unfolding entries_at
get_target_value point level criteria =
    and_then point.targets
      (λ t. map? (λ e. e.target_value) (find (λ e. e.criteria == criteria) (entries_at level t)))

-- `TargetToggle` and `ChartTarget`, with `none` for the level `baseline`.
pub record ChartTarget : Type 0 where
  pub key : String
  pub level : Option Level
  pub criteria : String
  pub visible : Bool

abbrev pub is_visible : Map Bool → String → Bool → Bool
is_visible visibility key default = or_default (get visibility key) default

-- The criteria targets, without those that are always zero: shown unless switched off.
unfoldable pub criteria_toggles : Map Bool → List DiscoveredTarget → List ChartTarget
criteria_toggles visibility [] = []
criteria_toggles visibility (d ∷ ds) =
    let rest = criteria_toggles visibility ds in
    if d.always_zero
    then rest
    else (record {
      key = d.key;
      level = some d.level;
      criteria = d.criteria;
      visible = is_visible visibility d.key true;
    })
      ∷ rest

unfoldable pub baseline_toggle : Map Bool → ChartTarget
baseline_toggle visibility = record {
  key = "baseline";
  level = none;
  criteria = "baseline";
  visible = is_visible visibility "baseline" false;
}

-- `targets`, for `hasBaseline`.
unfoldable pub toggles : Map Bool → List DiscoveredTarget → Bool → List ChartTarget
unfolding criteria_toggles baseline_toggle
toggles visibility discovered has_baseline =
    criteria_toggles visibility discovered
    ++ (if has_baseline then baseline_toggle visibility ∷ [] else [])

-- What the `toggle` of a target does to `visibility`; the default is on for the criteria only.
unfoldable pub toggle : ChartTarget → Map Bool → Map Bool
toggle t visibility = set visibility t.key (not (is_visible visibility t.key (is_some t.level)))
