-- ===== src/Results.antt =====
-- The outcome unions of the interface: `Outcome` of features/evaluations/domain.ts and
-- `HeatmapResult` of features/navigator/domain.ts, which adds `none` for a cell with no data.
use Prim.Native.String.{String}

pub data Outcome : Type 0 where
  pass warning fail error invalidated : Outcome

pub data HeatmapResult : Type 0 where
  pass warning fail error invalidated none : HeatmapResult

-- The text that stands for each value on the wire and in the code.
abbrev pub outcome_text : Outcome → String
outcome_text Outcome.pass = "pass"
outcome_text Outcome.warning = "warning"
outcome_text Outcome.fail = "fail"
outcome_text Outcome.error = "error"
outcome_text Outcome.invalidated = "invalidated"

abbrev pub to_heatmap_result : Outcome → HeatmapResult
to_heatmap_result Outcome.pass = HeatmapResult.pass
to_heatmap_result Outcome.warning = HeatmapResult.warning
to_heatmap_result Outcome.fail = HeatmapResult.fail
to_heatmap_result Outcome.error = HeatmapResult.error
to_heatmap_result Outcome.invalidated = HeatmapResult.invalidated
