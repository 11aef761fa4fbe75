-- ===== src/Actions/Scope.antt =====
-- The SLOs that an action is about: slo-scope/useSloScope.ts and types.ts of
-- ui/src/features/evaluations/components/actions, with the fields of the heatmap that it reads.
pub mod Options
use tropek.Prelude.{
  ℕ, zero, suc, ◌+◌, ◌-◌, ◌*◌, ◌/◌, ◌%◌, ◌≤◌, ◌<◌, String, ◌≡◌, refl, sym, ap, ◌∙◌, ◌≢◌, ◌↔◌, ◌⊎◌,
  inl, inr, Bool, true, false, not, ◌&&◌, ◌||◌, Option, none, some, List, [], ◌∷◌, ◌++◌, map,
  reverse, arith, ◌==◌, eq_iff, eq_refl, ltb, leb, eqb, if◌then◌else◌, Bool-cases, Bool_ext,
  Option-cases, or_default, or_else, and_then, map?, is_some, length, get_elem?, filter, find, any,
  map_from, drop_at_from, All, Any, length-append, length-map, length-reverse,
  get_elem?-append_left, get_elem?-append_length, get_elem?-reverse, get_elem?-map, All-append,
  ltb→lt, lt→ltb, leb→le, eqb→eq, eqb_refl, tests, min, max,
}
use tropek.Js.Map.{
  contains, IsDistinct, Map, keys, get, set, set_all, from_entries, find_last, get-set,
  get-from_entries, contains-keys-set, keys-set-IsDistinct, contains-keys,
}
use tropek.Js.Unique.{
  unique_from, unique_by, unique, unique_by-IsDistinct, contains-unique_by, find-unique_by,
  All-unique_by, Any-of_contains, contains_of-Any,
}
use tropek.Js.Text.{◌+++◌, decimal}
use tropek.Js.MultiMap.{
  push_at, non_empty, more, more_nil, more-more, get-push_at, values, values-push_at-perm,
}
use tropek.Results.{Outcome, HeatmapResult, outcome_text}

-- The fields of HeatmapSummaryCell, HeatmapIndicatorCell and HeatmapSloGroup.
pub record SummaryCell : Type 0 where
  pub evaluation_id : String
  pub result : HeatmapResult

pub record IndicatorCell : Type 0 where
  pub evaluation_id : String
  pub slo_evaluation_id : String

pub record ScopeGroup : Type 0 where
  pub slo_name : String
  pub slo_display_name : Option String
  pub summary : List SummaryCell
  pub cells : List IndicatorCell

pub record SloScopeOption : Type 0 where
  pub slo_name : String
  pub display_name : String
  pub slo_evaluation_id : String
  pub current_result : Outcome

pub data SloScopeFilter : Type 0 where
  everything invalidated_only not_invalidated : SloScopeFilter

abbrev pub filter_text : SloScopeFilter → String
filter_text SloScopeFilter.everything = "all"
filter_text SloScopeFilter.invalidated_only = "invalidated-only"
filter_text SloScopeFilter.not_invalidated = "not-invalidated"

unfoldable pub outcome_from_heatmap_result : HeatmapResult → Option Outcome
outcome_from_heatmap_result HeatmapResult.pass = some Outcome.pass
outcome_from_heatmap_result HeatmapResult.warning = some Outcome.warning
outcome_from_heatmap_result HeatmapResult.fail = some Outcome.fail
outcome_from_heatmap_result HeatmapResult.error = some Outcome.error
outcome_from_heatmap_result HeatmapResult.invalidated = some Outcome.invalidated
outcome_from_heatmap_result HeatmapResult.none = none

abbrev pub is_invalidated : Outcome → Bool
is_invalidated Outcome.invalidated = true
is_invalidated Outcome.pass = false
is_invalidated Outcome.warning = false
is_invalidated Outcome.fail = false
is_invalidated Outcome.error = false

abbrev pub passes_filter : SloScopeFilter → Outcome → Bool
passes_filter SloScopeFilter.everything outcome = true
passes_filter SloScopeFilter.invalidated_only outcome = is_invalidated outcome
passes_filter SloScopeFilter.not_invalidated outcome = not (is_invalidated outcome)

-- What the body of the loop pushes for a group.
unfoldable pub option_of : String → SloScopeFilter → ScopeGroup → Option SloScopeOption
unfolding outcome_from_heatmap_result
option_of column filter group =
    and_then (find (λ cell. cell.evaluation_id == column) group.summary) (λ summary.
      and_then (outcome_from_heatmap_result summary.result) (λ outcome.
        if passes_filter filter outcome
        then map?
            (λ cell. record {
              slo_name = group.slo_name;
              display_name = or_default group.slo_display_name group.slo_name;
              slo_evaluation_id = cell.slo_evaluation_id;
              current_result = outcome;
            })
            (find (λ cell. cell.evaluation_id == column) group.cells)
        else none))

abbrev pub push_option : Option SloScopeOption → List SloScopeOption → List SloScopeOption
push_option none options = options
push_option (some option) options = option ∷ options

unfoldable pub options_of : String → SloScopeFilter → List ScopeGroup → List SloScopeOption
unfolding option_of
options_of column filter [] = []
options_of column filter (group ∷ groups) =
    push_option (option_of column filter group) (options_of column filter groups)

-- `heatmapData` and `columnEvalId` may be missing.
unfoldable pub available_slos :
    Option (List ScopeGroup) → Option String → SloScopeFilter → List SloScopeOption
unfolding options_of
available_slos none column filter = []
available_slos (some groups) none filter = []
available_slos (some groups) (some column) filter =
    if column == "" then [] else options_of column filter groups

abbrev pub slo_names : List SloScopeOption → List String
slo_names options = unique (map (λ option. option.slo_name) options)

-- The mode is one SLO, or none for all.
unfoldable pub default_selection : List SloScopeOption → Option String → List String
unfolding unique_by contains
default_selection options none = slo_names options
default_selection options (some single) =
    if contains single (slo_names options) then single ∷ [] else slo_names options

abbrev pub join : List String → String
join [] = ""
join (s ∷ []) = s
join (s ∷ t ∷ ss) = s +++ "," +++ join (t ∷ ss)

unfoldable pub selection_key : Option String → SloScopeFilter → List SloScopeOption → String
selection_key column filter options =
    or_default column ""
    +++ ":"
    +++ filter_text filter
    +++ ":"
    +++ join (map (λ option. option.slo_name) options)

-- The state of the hook: the selection and the key that it was made for.
pub record Selection : Type 0 where
  pub selected : List String
  pub last_selection_key : String

unfoldable pub mount : String → List String → Selection
mount key initial = record { selected = initial; last_selection_key = key }

unfoldable pub render : String → List String → Selection → Selection
render key initial s =
    if key == s.last_selection_key
    then s
    else record { selected = initial; last_selection_key = key }

unfoldable pub set_selected : List String → Selection → Selection
set_selected next s = record s { selected = next }

unfoldable pub reset : List SloScopeOption → Selection → Selection
unfolding unique_by
reset options s = record s { selected = slo_names options }

unfoldable pub lookup_eval_id : List SloScopeOption → String → Option String
lookup_eval_id options name =
    map? (λ option. option.slo_evaluation_id) (find (λ option. option.slo_name == name) options)
