-- ===== src/Evaluations/Hooks.antt =====
-- features/evaluations/hooks: the tabs of the indicators (useTabState.ts) and a preference that
-- follows a shared one until it is set (useMasterOverride.ts).
pub mod Tabs
pub mod Override
use tropek.Prelude.{
  ℕ, zero, suc, ◌+◌, ◌-◌, ◌*◌, ◌/◌, ◌%◌, ◌≤◌, ◌<◌, String, ◌≡◌, refl, sym, ap, ◌∙◌, ◌≢◌, ◌↔◌, ◌⊎◌,
  inl, inr, Bool, true, false, not, ◌&&◌, ◌||◌, Option, none, some, List, [], ◌∷◌, ◌++◌, map,
  reverse, arith, ◌==◌, eq_iff, eq_refl, ltb, leb, eqb, if◌then◌else◌, Bool-cases, Bool_ext,
  Option-cases, or_default, or_else, and_then, map?, is_some, length, get_elem?, filter, find, any,
  All, Any, length-append, length-map, length-reverse, get_elem?-append_left,
  get_elem?-append_length, get_elem?-reverse, get_elem?-map, All-append, ltb→lt, lt→ltb, leb→le,
  eqb→eq, eqb_refl, tests, min, max,
}
use tropek.Js.Map.{
  contains, IsDistinct, Map, keys, get, set, set_all, from_entries, find_last, get-set,
  get-from_entries, contains-keys-set, keys-set-IsDistinct, contains-keys,
}
use tropek.Js.Unique.{
  unique_from, unique_by, unique, unique_by-IsDistinct, contains-unique_by, find-unique_by,
  All-unique_by, Any-of_contains, contains_of-Any,
}
use tropek.Js.Text.{◌+++◌, decimal}
use tropek.Js.MultiMap.{
  push_at, non_empty, more, more_nil, more-more, get-push_at, values, values-push_at-perm,
}
use tropek.Evaluations.Domain.{Indicator}

-- `.filter(Boolean)` on the groups: neither missing nor empty.
unfoldable pub group_of : Option String → List String
group_of none = []
group_of (some g) = if g == "" then [] else g ∷ []

abbrev pub is_in : String → Option String → Bool
is_in g none = false
is_in g (some h) = h == g

module _ {N : Type 0} where
  unfoldable pub groups_of : List (Indicator N) → List String
  unfolding group_of
  groups_of [] = []
  groups_of (i ∷ is) = group_of i.tab_group ++ groups_of is

  unfoldable pub available_groups : Option (List (Indicator N)) → List String
  unfolding groups_of
  available_groups indicators = unique (groups_of (or_default indicators []))

  unfoldable pub in_group : List (Indicator N) → String → List (Indicator N)
  in_group indicators g = filter (λ i. is_in g i.tab_group) indicators

  unfoldable pub counts : Option (List (Indicator N)) → Map ℕ
  unfolding available_groups in_group
  counts indicators =
      from_entries (
        map (λ g. (g, length (in_group (or_default indicators []) g)))
          (available_groups indicators))

  unfoldable pub resolved_tab : Option (List (Indicator N)) → String → String
  unfolding available_groups
  resolved_tab indicators active_tab =
      if contains active_tab ("all" ∷ available_groups indicators) then active_tab else "all"

  unfoldable pub tab_indicators : Option (List (Indicator N)) → String → List (Indicator N)
  unfolding resolved_tab in_group
  tab_indicators indicators active_tab =
      if resolved_tab indicators active_tab == "all"
      then or_default indicators []
      else in_group (or_default indicators []) (resolved_tab indicators active_tab)

-- The state of `useMasterOverride`. It is rendered with the master's value and generation.
pub record OverrideState (T : Type 0) : Type 0 where
  pub override : Option T
  pub last_generation : ℕ

module _ {T : Type 0} where
  unfoldable pub initial_override : ℕ → OverrideState T
  initial_override generation = record { override = none; last_generation = generation }

  -- The state that a render leaves.
  unfoldable pub render : ℕ → OverrideState T → OverrideState T
  render generation s =
      if eqb generation s.last_generation
      then s
      else record { override = none; last_generation = generation }

  unfoldable pub effective : T → OverrideState T → T
  effective master s = or_default s.override master

  unfoldable pub set_override : T → OverrideState T → OverrideState T
  set_override value s = record s { override = some value }
