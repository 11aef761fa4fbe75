-- ===== src/Charts/Tooltip.antt =====
-- components/charts/tooltipWatchdog.ts: the page-level singleton that keeps at most one ECharts
-- tooltip visible. Charts and containers are numbers; what the code does to them is a list of
-- actions. ECharts and the page stand in `Page`, in the module below.
pub mod Page
use tropek.Prelude.{
  ℕ, zero, suc, ◌+◌, ◌-◌, ◌*◌, ◌/◌, ◌%◌, ◌≤◌, ◌<◌, String, ◌≡◌, refl, sym, ap, ◌∙◌, ◌≢◌, ◌↔◌, ◌⊎◌,
  inl, inr, Bool, true, false, not, ◌&&◌, ◌||◌, Option, none, some, List, [], ◌∷◌, ◌++◌, map,
  reverse, arith, ◌==◌, eq_iff, eq_refl, ltb, leb, eqb, if◌then◌else◌, Bool-cases, Bool_ext,
  Option-cases, or_default, or_else, and_then, map?, is_some, length, get_elem?, filter, find, any,
  All, Any, length-append, length-map, length-reverse, get_elem?-append_left,
  get_elem?-append_length, get_elem?-reverse, get_elem?-map, All-append, ltb→lt, lt→ltb, leb→le,
  eqb→eq, eqb_refl, tests, min, max,
}
use tropek.Js.Map.{
  contains, IsDistinct, Map, keys, get, set, set_all, from_entries, find_last, get-set,
  get-from_entries, contains-keys-set, keys-set-IsDistinct, contains-keys,
}
use tropek.Js.Unique.{
  unique_from, unique_by, unique, unique_by-IsDistinct, contains-unique_by, find-unique_by,
  All-unique_by, Any-of_contains, contains_of-Any,
}
use tropek.Js.Text.{◌+++◌, decimal}
use tropek.Js.MultiMap.{
  push_at, non_empty, more, more_nil, more-more, get-push_at, values, values-push_at-perm,
}

pub record ActiveTooltip : Type 0 where
  pub chart : ℕ
  pub container : ℕ

-- The variables of the module.
pub record Watchdog : Type 0 where
  pub active : Option ActiveTooltip
  pub listeners_attached : Bool

pub data Action : Type 0 where
  hide_tip downplay : ℕ → Action
  add_listeners remove_listeners : Action

-- A call leaves a new state and the actions that it made, in order.
abbrev pub Effect : Type 0
Effect = Watchdog × List Action

unfoldable pub attach_listeners : Watchdog → Effect
attach_listeners s =
    if s.listeners_attached
    then (s, [])
    else (record s { listeners_attached = true }, add_listeners ∷ [])

unfoldable pub detach_listeners : Watchdog → Effect
detach_listeners s =
    if s.listeners_attached
    then (record s { listeners_attached = false }, remove_listeners ∷ [])
    else (s, [])

-- Run the second call in the state that the first leaves.
abbrev pub followed_by : Effect → (Watchdog → Effect) → Effect
followed_by (s, actions) next = let (s', actions') = next s in (s', actions ++ actions')

abbrev pub emit : List Action → Watchdog → Effect
emit actions s = (s, actions)

-- The body of `hideActiveTooltip`, for what `active` holds. `is_disposed` answers for each chart.
unfoldable pub hide_tooltip : (ℕ → Bool) → Option ActiveTooltip → Watchdog → Effect
unfolding detach_listeners
hide_tooltip is_disposed none s = (s, [])
hide_tooltip is_disposed (some tooltip) s =
    followed_by (detach_listeners (record s { active = none })) (
      emit (
        if is_disposed tooltip.chart
        then []
        else hide_tip tooltip.chart ∷ downplay tooltip.chart ∷ []))

unfoldable pub hide_active_tooltip : (ℕ → Bool) → Watchdog → Effect
unfolding hide_tooltip
hide_active_tooltip is_disposed s = hide_tooltip is_disposed s.active s

-- `handlePointerMove`; `holds` says whether a container holds the target of the event, and is
-- false of every container where the target is no node.
unfoldable pub pointer_move : (ℕ → Bool) → (ℕ → Bool) → Option ActiveTooltip → Watchdog → Effect
unfolding hide_active_tooltip
pointer_move is_disposed holds none s = (s, [])
pointer_move is_disposed holds (some tooltip) s =
    if holds tooltip.container then (s, []) else hide_active_tooltip is_disposed s

unfoldable pub handle_pointer_move : (ℕ → Bool) → (ℕ → Bool) → Watchdog → Effect
unfolding pointer_move
handle_pointer_move is_disposed holds s = pointer_move is_disposed holds s.active s

unfoldable pub handle_pointer_gone : (ℕ → Bool) → Watchdog → Effect
unfolding hide_active_tooltip
handle_pointer_gone is_disposed s = hide_active_tooltip is_disposed s

-- `active && active.chart !== chart`
unfoldable pub is_other : Option ActiveTooltip → ℕ → Bool
is_other none chart = false
is_other (some tooltip) chart = not (eqb tooltip.chart chart)

unfoldable pub track_tooltip : (ℕ → Bool) → ℕ → ℕ → Watchdog → Effect
unfolding is_other hide_active_tooltip attach_listeners
track_tooltip is_disposed chart container s =
    followed_by (if is_other s.active chart then hide_active_tooltip is_disposed s else (s, []))
      (λ s'.
        attach_listeners
          (record s' { active = some (record { chart = chart; container = container }) }))

-- `active && active.chart === chart`
unfoldable pub is_own : Option ActiveTooltip → ℕ → Bool
is_own none chart = false
is_own (some tooltip) chart = eqb tooltip.chart chart

unfoldable pub release_tooltip : ℕ → Watchdog → Effect
unfolding is_own detach_listeners
release_tooltip chart s =
    if is_own s.active chart then detach_listeners (record s { active = none }) else (s, [])
