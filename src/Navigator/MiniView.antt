-- ===== src/Navigator/MiniView.antt =====
-- `overallScoreToMiniView` and `sloGroupToMiniView` of navigator/mappers.ts.
pub mod Grid
pub mod Outcomes
use tropek.Prelude.{
  ℕ, zero, suc, ◌+◌, ◌-◌, ◌*◌, ◌/◌, ◌%◌, ◌≤◌, ◌<◌, String, ◌≡◌, refl, sym, ap, ◌∙◌, ◌≢◌, ◌↔◌, ◌⊎◌,
  inl, inr, Bool, true, false, not, ◌&&◌, ◌||◌, Option, none, some, List, [], ◌∷◌, ◌++◌, map,
  reverse, arith, ◌==◌, eq_iff, eq_refl, ltb, leb, eqb, if◌then◌else◌, Bool-cases, Option-cases,
  or_default, or_else, and_then, map?, is_some, length, get_elem?, filter, find, any, All, Any,
  length-append, length-map, length-reverse, ltb→lt, lt→ltb, leb→le, eqb→eq, eqb_refl, tests, min,
  max,
}
use tropek.Js.Map.{
  contains, IsDistinct, Map, keys, get, set, set_all, from_entries, find_last, get-set,
  get-from_entries, contains-keys-set, keys-set-IsDistinct, contains-keys,
}
use tropek.Js.Unique.{
  unique_from, unique_by, unique, unique_by-IsDistinct, contains-unique_by, find-unique_by,
  All-unique_by, Any-of_contains, contains_of-Any,
}
use tropek.Js.Text.{◌+++◌, decimal}
use tropek.Js.MultiMap.{
  push_at, non_empty, more, more_nil, more-more, get-push_at, values, values-push_at-perm,
}
use tropek.Js.Number.{Arithmetic}
use tropek.Results.{HeatmapResult}
use tropek.Navigator.Types.{
  EvaluationColumn, HeatmapMetric, ChangePointMarker, SummaryCellDto, CellGroupedDto, SloGroupDto,
  HeatmapEChartsCell, MiniHeatmapView,
}

unfoldable pub normalize_text : String → HeatmapResult
normalize_text raw =
    if raw == "pass"
    then HeatmapResult.pass
    else if raw == "warning"
    then HeatmapResult.warning
    else if raw == "fail"
    then HeatmapResult.fail
    else if raw == "error"
    then HeatmapResult.error
    else if raw == "invalidated"
    then HeatmapResult.invalidated
    else if raw == ""
    then HeatmapResult.none
    else HeatmapResult.error

-- `normalizeResult`
unfoldable pub normalize_result : Option String → HeatmapResult
unfolding normalize_text
normalize_result none = HeatmapResult.none
normalize_result (some raw) = normalize_text raw

-- The first element of the template key `${evaluationId}\0${metricName}`.
abbrev pub indicator_key : String → String → String
indicator_key evaluation_id metric = evaluation_id +++ "\0" +++ metric

-- A row of the grid, from the top down: the header, then one row for each metric.
pub record DisplayRow : Type 0 where
  pub label : String
  pub metric_name : Option String

unfoldable pub display_rows : String → Bool → List HeatmapMetric → List DisplayRow
display_rows label is_expanded metrics =
    record { label = label; metric_name = none }
    ∷ (if is_expanded
        then map (λ m. record { label = m.display_name; metric_name = some m.name }) metrics
        else [])

module _ (a : Arithmetic) where
  open a use {Number, of_ℕ, round}

  unfoldable pub canonical_summary_result : SummaryCellDto Number → HeatmapResult
  unfolding normalize_result
  canonical_summary_result summary =
      if summary.invalidated then HeatmapResult.invalidated else normalize_result summary.result

  -- `scoreToDisplay`
  unfoldable pub score_to_display : Option Number → Number
  score_to_display none = of_ℕ 0
  score_to_display (some raw) = round raw

  abbrev pub summaries_by_id : List (SummaryCellDto Number) → Map (SummaryCellDto Number)
  summaries_by_id cells = from_entries (map (λ c. (c.evaluation_id, c)) cells)

  abbrev pub indicators_by_key : List (CellGroupedDto Number) → Map (CellGroupedDto Number)
  indicators_by_key cells =
      from_entries (map (λ c. (indicator_key c.evaluation_id c.metric, c)) cells)

  unfoldable pub summary_result : Option (SummaryCellDto Number) → HeatmapResult
  unfolding canonical_summary_result
  summary_result none = HeatmapResult.none
  summary_result (some cell) = canonical_summary_result cell

  unfoldable pub overall_cell :
      Map (SummaryCellDto Number) → ℕ → EvaluationColumn → HeatmapEChartsCell Number
  unfolding summary_result score_to_display
  overall_cell lookup xi column =
      let summary_cell = get lookup column.evaluation_id in
      record {
        x = xi;
        y = 0;
        result = summary_result summary_cell;
        score = score_to_display (and_then summary_cell (λ c. c.score));
        slot = column.evaluation_id;
        period_start = column.period_start;
        row_label = "Overall Score";
        eval_id = none;
        column_key = some column.evaluation_id;
        evaluation_name = some column.eval_name;
        is_slo_header = false;
        slo_name = none;
        metric_name = none;
        change_point = none;
      }

  unfoldable pub header_cell :
      Map (SummaryCellDto Number)
      → String
      → String
      → ℕ
      → ℕ
      → EvaluationColumn
      → HeatmapEChartsCell Number
  unfolding summary_result score_to_display
  header_cell lookup slo_name label row_y xi column =
      let summary_cell = get lookup column.evaluation_id in
      record {
        x = xi;
        y = row_y;
        result = summary_result summary_cell;
        score = score_to_display (and_then summary_cell (λ c. c.score));
        slot = column.evaluation_id;
        period_start = column.period_start;
        row_label = label;
        eval_id = none;
        column_key = some column.evaluation_id;
        evaluation_name = some column.eval_name;
        is_slo_header = true;
        slo_name = some slo_name;
        metric_name = none;
        change_point = none;
      }

  unfoldable pub indicator_result : Option (CellGroupedDto Number) → HeatmapResult
  unfolding normalize_result
  indicator_result none = HeatmapResult.none
  indicator_result (some cell) = normalize_result cell.result

  unfoldable pub indicator_cell :
      Map (CellGroupedDto Number)
      → String
      → String
      → String
      → ℕ
      → ℕ
      → EvaluationColumn
      → HeatmapEChartsCell Number
  unfolding indicator_result score_to_display
  indicator_cell lookup slo_name label metric_name row_y xi column =
      let cell = get lookup (indicator_key column.evaluation_id metric_name) in
      record {
        x = xi;
        y = row_y;
        result = indicator_result cell;
        score = score_to_display (and_then cell (λ c. c.score));
        slot = column.evaluation_id;
        period_start = column.period_start;
        row_label = label;
        eval_id = map? (λ c. c.slo_evaluation_id) cell;
        column_key = some column.evaluation_id;
        evaluation_name = some column.eval_name;
        is_slo_header = false;
        slo_name = some slo_name;
        metric_name = some metric_name;
        change_point = and_then cell (λ c. c.change_point);
      }

  -- `for (let xi = 0; xi < columns.length; xi++) cells.push(…)`
  unfoldable pub row_of :
      (ℕ → EvaluationColumn → HeatmapEChartsCell Number)
      → ℕ
      → List EvaluationColumn
      → List (HeatmapEChartsCell Number)
  row_of cell xi [] = []
  row_of cell xi (column ∷ columns) = cell xi column ∷ row_of cell (suc xi) columns

  unfoldable pub overall_score_to_mini_view :
      List EvaluationColumn → List (SummaryCellDto Number) → MiniHeatmapView Number
  unfolding overall_cell row_of from_entries get
  overall_score_to_mini_view columns composite = record {
    rows = "Overall Score" ∷ [];
    cells = row_of (overall_cell (summaries_by_id composite)) 0 columns;
    header_row_indices = [];
  }

  -- The cells of one display row, at height `row_y`.
  unfoldable pub display_row_cells :
      Map (SummaryCellDto Number)
      → Map (CellGroupedDto Number)
      → String
      → List EvaluationColumn
      → ℕ
      → String
      → Option String
      → List (HeatmapEChartsCell Number)
  unfolding header_cell indicator_cell row_of
  display_row_cells summaries indicators slo_name columns row_y label none =
      row_of (header_cell summaries slo_name label row_y) 0 columns
  display_row_cells summaries indicators slo_name columns row_y label (some metric_name) =
      row_of (indicator_cell indicators slo_name label metric_name row_y) 0 columns

  -- The loop over the display rows, at `display_index`; the row that is shown on top has the
  -- greatest height.
  unfoldable pub all_cells :
      Map (SummaryCellDto Number)
      → Map (CellGroupedDto Number)
      → String
      → List EvaluationColumn
      → ℕ
      → ℕ
      → List DisplayRow
      → List (HeatmapEChartsCell Number)
  unfolding display_row_cells
  all_cells summaries indicators slo_name columns row_count display_index [] = []
  all_cells summaries indicators slo_name columns row_count display_index (row ∷ rows) =
      display_row_cells summaries indicators slo_name columns (row_count - 1 - display_index)
        row.label row.metric_name
      ++ all_cells summaries indicators slo_name columns row_count (suc display_index) rows

  unfoldable pub header_indices : ℕ → ℕ → List DisplayRow → List ℕ
  header_indices row_count display_index [] = []
  header_indices row_count display_index (row ∷ rows) =
      let later = header_indices row_count (suc display_index) rows in
      elim row.metric_name [ none ↦ (row_count - 1 - display_index) ∷ later | some m ↦ later ]

  unfoldable pub slo_group_to_mini_view :
      SloGroupDto Number → List EvaluationColumn → Bool → MiniHeatmapView Number
  unfolding all_cells header_indices display_rows from_entries get
  slo_group_to_mini_view group columns is_expanded =
      let rows =
        display_rows (or_default group.slo_display_name group.slo_name) is_expanded group.metrics in
      record {
        rows = map (λ r. r.label) (reverse rows);
        cells =
            all_cells (summaries_by_id group.summary) (indicators_by_key group.cells) group.slo_name
              columns (length rows) 0 rows;
        header_row_indices = header_indices (length rows) 0 rows;
      }
