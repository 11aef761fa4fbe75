-- ===== src/Navigator/Types.antt =====
-- The rows of the grouped heatmap as the API sends them, and the cells that the charts draw
-- (the DTOs of mappers.ts, domain.ts and ui-types.ts).
use tropek.Prelude.{ℕ, String, Bool, Option, List}
use tropek.Results.{HeatmapResult}

pub data Direction : Type 0 where
  regression improvement : Direction

pub data Transition : Type 0 where
  appeared vanished : Transition

pub record EvaluationColumn : Type 0 where
  pub evaluation_id : String
  pub period_start : String
  pub period_end : String
  pub eval_name : String
  pub has_notes : Bool

pub record HeatmapMetric : Type 0 where
  pub name : String
  pub display_name : String

module _ (N : Type 0) where
  pub record ChangePointMarker : Type 0 where
    pub direction : Direction
    pub change_relative_pct : Option N
    pub transition : Option Transition
    pub change_absolute : Option N

  -- The fields of `HeatmapSummaryCell` that the mappers read.
  pub record SummaryCellDto : Type 0 where
    pub evaluation_id : String
    pub result : Option String
    pub invalidated : Bool
    pub score : Option N

  -- The fields of `HeatmapCellGrouped` that the mappers read.
  pub record CellGroupedDto : Type 0 where
    pub evaluation_id : String
    pub slo_evaluation_id : String
    pub metric : String
    pub result : Option String
    pub score : Option N
    pub change_point : Option ChangePointMarker

  pub record SloGroupDto : Type 0 where
    pub slo_name : String
    pub slo_display_name : Option String
    pub metrics : List HeatmapMetric
    pub cells : List CellGroupedDto
    pub summary : List SummaryCellDto

  -- A cell of the drawn grid: column `x`, row `y` counted from the bottom.
  pub record HeatmapEChartsCell : Type 0 where
    pub x : ℕ
    pub y : ℕ
    pub result : HeatmapResult
    pub score : N
    pub slot : String
    pub period_start : String
    pub row_label : String
    pub eval_id : Option String
    pub column_key : Option String
    pub evaluation_name : Option String
    pub is_slo_header : Bool
    pub slo_name : Option String
    pub metric_name : Option String
    pub change_point : Option ChangePointMarker

  pub record MiniHeatmapView : Type 0 where
    pub rows : List String
    pub cells : List HeatmapEChartsCell
    pub header_row_indices : List ℕ
