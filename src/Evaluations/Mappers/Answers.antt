-- ===== src/Evaluations/Mappers/Answers.antt =====
-- features/evaluations/mappers.ts, the read side: the whole answers of the API.
use tropek.Prelude.{String, false, some, List, [], map, or_default, map?}
use tropek.Js.Map.{Map}
use tropek.Evaluations.Domain.{
  Evaluation, EvaluationDetail, EvaluationList, TrendPoint, EvaluationNameEntry,
}
use tropek.Evaluations.Dto.{
  EvaluationSummaryDto, EvaluationDetailDto, EvaluationListDto, TrendPointDto,
  EvaluationNameEntryDto,
}
use tropek.Evaluations.Mappers.{
  make_date_range, normalize_outcome, collapse_outcome, dto_to_asset_snapshot,
  dto_to_failing_indicator, dto_to_sli_metadata, dto_to_trend_targets, change_point_of,
  dto_to_indicator, dto_to_annotation, dto_to_baseline_pin,
}

-- `zero_count` is the number 0.
module _ {N D J : Type 0} (new_date : String → D) (zero_count : N) where
  unfoldable pub dto_to_evaluation_summary : EvaluationSummaryDto N J → Evaluation N D J
  unfolding collapse_outcome make_date_range normalize_outcome dto_to_asset_snapshot
      dto_to_baseline_pin dto_to_annotation dto_to_failing_indicator
  dto_to_evaluation_summary dto = record {
    id = dto.id;
    evaluation_id = dto.evaluation_id;
    evaluation_name = dto.evaluation_name;
    status = dto.status;
    outcome = collapse_outcome dto.result dto.invalidated;
    score = dto.score;
    period = make_date_range dto.period_start dto.period_end;
    slo_name = dto.slo_name;
    slo_version = dto.slo_version;
    sli_name = dto.sli_name;
    sli_version = dto.sli_version;
    data_source_name = dto.data_source_name;
    ingestion_mode = dto.ingestion_mode;
    adapter_used = dto.adapter_used;
    invalidated = dto.invalidated;
    original_outcome = map? (λ raw. normalize_outcome (some raw)) dto.original_result;
    original_score = dto.original_score;
    override_reason = dto.override_reason;
    override_author = dto.override_author;
    asset_snapshot = dto_to_asset_snapshot dto.asset_snapshot;
    variables = or_default dto.variables [];
    baseline_pin = dto_to_baseline_pin new_date dto;
    latest_annotation = map? (dto_to_annotation new_date) dto.latest_annotation;
    annotation_count = or_default dto.annotation_count zero_count;
    created_at = new_date dto.created_at;
    top_failures = map dto_to_failing_indicator (or_default dto.top_failures []);
  }

  -- An object of the answer is a map with distinct keys, so that its entries are mapped in turn.
  unfoldable pub dto_to_evaluation_detail : EvaluationDetailDto N J → EvaluationDetail N D J
  unfolding dto_to_evaluation_summary dto_to_annotation dto_to_indicator dto_to_sli_metadata
  dto_to_evaluation_detail dto = record {
    summary = dto_to_evaluation_summary dto.summary;
    invalidation_note = dto.invalidation_note;
    compared_evaluation_ids = or_default dto.compared_evaluation_ids [];
    annotations = map (dto_to_annotation new_date) (or_default dto.annotations []);
    indicators = map dto_to_indicator (or_default dto.indicator_results []);
    total_score_pass_threshold = dto.total_score_pass_threshold;
    total_score_warning_threshold = dto.total_score_warning_threshold;
    sli_metadata =
        map (λ (key, value). (key, dto_to_sli_metadata value)) (or_default dto.sli_metadata []);
  }

  unfoldable pub dto_to_evaluation_list : EvaluationListDto N J → EvaluationList N D J
  unfolding dto_to_evaluation_summary
  dto_to_evaluation_list dto = record {
    items = map dto_to_evaluation_summary dto.items;
    total = dto.total;
    truncated = dto.truncated;
  }

module _ {N D : Type 0} (new_date : String → D) where
  unfoldable pub dto_to_trend_point : TrendPointDto N → TrendPoint N D
  unfolding normalize_outcome dto_to_trend_targets change_point_of
  dto_to_trend_point dto = record {
    timestamp = new_date dto.timestamp;
    value = dto.value;
    score = dto.score;
    eval_id = dto.eval_id;
    outcome = normalize_outcome (some dto.result);
    baseline = dto.baseline;
    evaluation_name = dto.evaluation_name;
    targets = map? dto_to_trend_targets dto.targets;
    overridden = false;
    change_point = map? change_point_of dto.change_point;
  }

  unfoldable pub dto_to_slo_trends : Map (List (TrendPointDto N)) → Map (List (TrendPoint N D))
  unfolding dto_to_trend_point
  dto_to_slo_trends dto = map (λ (metric, points). (metric, map dto_to_trend_point points)) dto

  unfoldable pub dto_to_evaluation_name_entry : EvaluationNameEntryDto N → EvaluationNameEntry N D
  dto_to_evaluation_name_entry dto = record {
    name = dto.name;
    count = dto.count;
    last_run = new_date dto.last_run;
  }
