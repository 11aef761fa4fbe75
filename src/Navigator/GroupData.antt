-- ===== src/Navigator/GroupData.antt =====
-- `buildGroupHeatmapData` and `buildGroupScoreData` of navigator/utils.ts. JavaScript's order of
-- texts, by which `sort()` sorts, is the parameter `before`.
pub mod Merge
pub mod Slots
pub mod Cells
use tropek.Prelude.{
  ℕ, zero, suc, ◌+◌, ◌-◌, ◌*◌, ◌/◌, ◌%◌, ◌≤◌, ◌<◌, String, ◌≡◌, refl, sym, ap, ◌∙◌, ◌≢◌, ◌↔◌, ◌⊎◌,
  inl, inr, Bool, true, false, not, ◌&&◌, ◌||◌, Option, none, some, List, [], ◌∷◌, ◌++◌, map,
  reverse, arith, ◌==◌, eq_iff, eq_refl, ltb, leb, eqb, if◌then◌else◌, Bool-cases, Bool_ext,
  Option-cases, or_default, or_else, and_then, map?, is_some, length, get_elem?, filter, find, any,
  All, Any, length-append, length-map, length-reverse, get_elem?-append_left,
  get_elem?-append_length, get_elem?-reverse, get_elem?-map, All-append, ltb→lt, lt→ltb, leb→le,
  eqb→eq, eqb_refl, tests, min, max,
}
use tropek.Js.Map.{
  contains, IsDistinct, Map, keys, get, set, set_all, from_entries, find_last, get-set,
  get-from_entries, contains-keys-set, keys-set-IsDistinct, contains-keys,
}
use tropek.Js.Unique.{
  unique_from, unique_by, unique, unique_by-IsDistinct, contains-unique_by, find-unique_by,
  All-unique_by, Any-of_contains, contains_of-Any,
}
use tropek.Js.Text.{◌+++◌, decimal}
use tropek.Js.MultiMap.{
  push_at, non_empty, more, more_nil, more-more, get-push_at, values, values-push_at-perm,
}
use text.Mathlib.Text.{starts_with}
use tropek.Js.Number.{Arithmetic}
use tropek.Js.Sort.{sort}
use tropek.Results.{Outcome, HeatmapResult, to_heatmap_result}

-- The fields of an evaluation that the two functions read. `outcome` and `score` may be missing
-- where the data did not come through the mapper.
pub record Evaluation (N : Type 0) : Type 0 where
  pub from : String
  pub asset_name : String
  pub asset_display_name : Option String
  pub evaluation_name : String
  pub invalidated : Bool
  pub outcome : Option Outcome
  pub score : Option N

-- `RESULT_RANK[result] ?? 0`
unfoldable pub result_rank : HeatmapResult → ℕ
result_rank HeatmapResult.pass = 0
result_rank HeatmapResult.warning = 1
result_rank HeatmapResult.fail = 2
result_rank HeatmapResult.error = 3
result_rank HeatmapResult.invalidated = 4
result_rank HeatmapResult.none = 0

-- The result that stays of the one that is stored and the next one.
unfoldable pub worse : HeatmapResult → HeatmapResult → HeatmapResult
unfolding result_rank
worse existing next = if ltb (result_rank existing) (result_rank next) then next else existing

module _ (a : Arithmetic) where
  open a use {Number, of_ℕ, add, mul, div, round}

  -- `e.invalidated ? 'invalidated' : (e.outcome ?? 'error')`
  unfoldable pub effective_result : Evaluation Number → HeatmapResult
  effective_result e =
      if e.invalidated
      then HeatmapResult.invalidated
      else to_heatmap_result (or_default e.outcome Outcome.error)

  abbrev pub score_of : Evaluation Number → Number
  score_of e = or_default e.score (of_ℕ 0)

  -- A value of `cellMap`.
  pub record Merged : Type 0 where
    pub result : HeatmapResult
    pub score : Number
    pub count : ℕ
    pub eval_name : String

  -- `${asset}\0${slot}\0${evaluationName}`
  unfoldable pub cell_key : Evaluation Number → String
  cell_key e = e.asset_name +++ "\0" +++ e.from +++ "\0" +++ e.evaluation_name

  -- The value that is stored for the evaluation, given what was there.
  unfoldable pub merge : Option Merged → Evaluation Number → Merged
  merge none e = record {
    result = effective_result e;
    score = score_of e;
    count = 1;
    eval_name = e.evaluation_name;
  }
  merge (some existing) e = record {
    result = worse existing.result (effective_result e);
    score =
        div (add (mul existing.score (of_ℕ existing.count)) (score_of e))
          (of_ℕ (existing.count + 1));
    count = existing.count + 1;
    eval_name = existing.eval_name;
  }

  -- The loop that fills `cellMap`.
  unfoldable pub merge_all : Map Merged → List (Evaluation Number) → Map Merged
  unfolding get set
  merge_all m [] = m
  merge_all m (e ∷ es) = merge_all (set m (cell_key e) (merge (get m (cell_key e)) e)) es

  -- The loop that fills `displayNameMap`: the first display name found for an asset stays.
  unfoldable pub display_names :
      Map String → Option (Map String) → List (Evaluation Number) → Map String
  unfolding get set
  display_names m fallback [] = m
  display_names m fallback (e ∷ es) =
      let name = or_else e.asset_display_name (and_then fallback (λ f. get f e.asset_name)) in
      display_names
        (elim (get m e.asset_name) [
          | some _ ↦ m
          | none ↦ elim name [ none ↦ m | some dn ↦ if dn == "" then m else set m e.asset_name dn ]
        ])
        fallback es

  pub record GroupCell : Type 0 where
    pub x : ℕ
    pub y : ℕ
    pub result : HeatmapResult
    pub score : Number
    pub slot : String
    pub period_start : String
    pub row_label : String
    pub evaluation_name : Option String

  pub record GroupHeatmapData : Type 0 where
    pub slots : List String
    pub rows : List String
    pub cells : List GroupCell

  empty_cell : ℕ → ℕ → String → String → GroupCell
  empty_cell xi yi slot label = record {
    x = xi;
    y = yi;
    result = HeatmapResult.none;
    score = of_ℕ 0;
    slot = slot;
    period_start = slot;
    row_label = label;
    evaluation_name = none;
  }

  merged_cell : ℕ → ℕ → String → String → Merged → GroupCell
  merged_cell xi yi slot label c = record {
    x = xi;
    y = yi;
    result = c.result;
    score = round c.score;
    slot = slot;
    period_start = slot;
    row_label = label;
    evaluation_name = some c.eval_name;
  }

  -- The entries whose key starts with `${asset}\0${slot}\0`.
  unfoldable pub matching : Map Merged → String → String → List Merged
  matching m asset slot =
      map (λ e. e.1) (filter (λ e. starts_with e.0 (asset +++ "\0" +++ slot +++ "\0")) m)

  unfoldable pub cells_at : ℕ → ℕ → String → String → List Merged → List GroupCell
  unfolding empty_cell merged_cell
  cells_at xi yi slot label [] = empty_cell xi yi slot label ∷ []
  cells_at xi yi slot label (c ∷ cs) = map (merged_cell xi yi slot label) (c ∷ cs)

  -- The inner loop, over the assets.
  unfoldable pub column_cells :
      Map Merged → Map String → String → ℕ → ℕ → List String → List GroupCell
  unfolding matching cells_at
  column_cells m names slot xi yi [] = []
  column_cells m names slot xi yi (asset ∷ assets) =
      cells_at xi yi slot (or_default (get names asset) asset) (matching m asset slot)
      ++ column_cells m names slot xi (suc yi) assets

  unfoldable pub grid_cells :
      Map Merged → Map String → List String → ℕ → List String → List GroupCell
  unfolding column_cells
  grid_cells m names assets xi [] = []
  grid_cells m names assets xi (slot ∷ slots) =
      column_cells m names slot xi 0 assets ++ grid_cells m names assets (suc xi) slots

  module _ (before : String → String → Bool) where
    unfoldable pub slots_of : List (Evaluation Number) → List String
    unfolding sort unique_by
    slots_of evals = sort before (unique (map (λ e. e.from) evals))

    unfoldable pub assets_of : List (Evaluation Number) → List String
    unfolding sort unique_by
    assets_of evals = sort before (unique (map (λ e. e.asset_name) evals))

    unfoldable pub build_group_heatmap_data :
        List (Evaluation Number) → Option (Map String) → GroupHeatmapData
    unfolding slots_of assets_of display_names merge_all merge worse effective_result cell_key
        grid_cells
    build_group_heatmap_data evals fallback_names =
        let slots = slots_of evals in
        let asset_names = assets_of evals in
        let names = display_names [] fallback_names evals in
        record {
          slots = slots;
          rows = map (λ n. or_default (get names n) n) asset_names;
          cells = grid_cells (merge_all [] evals) names asset_names 0 slots;
        }

  pub record AssetScorePoint : Type 0 where
    pub slot : String
    pub asset_name : String
    pub score : Number
    pub result : HeatmapResult
    pub max_score : ℕ

  pub record SlotScoreData : Type 0 where
    pub slot : String
    pub assets : List AssetScorePoint
    pub total_achieved : Number
    pub total_max : ℕ

  unfoldable pub score_point : String → Evaluation Number → AssetScorePoint
  unfolding effective_result
  score_point slot e = record {
    slot = slot;
    asset_name = e.asset_name;
    score = score_of e;
    result = effective_result e;
    max_score = 100;
  }

  -- `assets.reduce((s, a) => s + a.score, 0)`
  unfoldable pub sum_scores : Number → List AssetScorePoint → Number
  sum_scores s [] = s
  sum_scores s (p ∷ ps) = sum_scores (add s p.score) ps

  unfoldable pub slot_score_data : List (Evaluation Number) → String → SlotScoreData
  unfolding score_point sum_scores
  slot_score_data evals slot =
      let assets = map (score_point slot) (filter (λ e. e.from == slot) evals) in
      record {
        slot = slot;
        assets = assets;
        total_achieved = sum_scores (of_ℕ 0) assets;
        total_max = length assets * 100;
      }

  unfoldable pub build_group_score_data :
      (String → String → Bool) → List (Evaluation Number) → List SlotScoreData
  unfolding slots_of slot_score_data
  build_group_score_data before evals = map (slot_score_data evals) (slots_of before evals)
