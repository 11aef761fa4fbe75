-- ===== src/Evaluations/Dto.antt =====
-- The answers of the API that features/evaluations/mappers.ts reads, as generated/api.ts types them.
-- A field that may be null or missing is an `Option`.
use tropek.Prelude.{String, Bool, Option, List}
use tropek.Js.Map.{Map}

pub record AssetSnapshotDto : Type 0 where
  pub asset_id : Option String
  pub build_ref : Option String
  pub display_name : Option String
  pub name : String
  pub primary_version : Option String
  pub tags : Option (Map String)

pub record NoteCategoryDto : Type 0 where
  pub id : String
  pub name : String
  pub label : String
  pub color : String
  pub show_on_graph : Bool
  pub is_system : Bool
  pub created_at : String
  pub updated_at : Option String

pub record AnnotationDto (J : Type 0) : Type 0 where
  pub author : Option String
  pub category : NoteCategoryDto
  pub category_id : String
  pub content : String
  pub created_at : String
  pub evaluation_run_id : Option String
  pub hidden_at : Option String
  pub hidden_by : Option String
  pub hidden_reason : Option String
  pub id : String
  pub note_group_id : Option String
  pub note_group_name : Option String
  pub slo_evaluation_id : Option String
  pub tags : Option (Map J)
  pub updated_at : Option String

pub record FailingIndicatorDto (N : Type 0) : Type 0 where
  pub display_name : String
  pub metric : String
  pub threshold : String
  pub value : Option N

pub record PassTargetDto (N : Type 0) : Type 0 where
  pub criteria : String
  pub target_value : N
  pub violated : Bool

pub record ChangePointDto (N : Type 0) : Type 0 where
  pub change_absolute : Option N
  pub change_relative_pct : Option N
  pub direction : String
  pub transition : Option String

pub record IndicatorResultDto (N : Type 0) : Type 0 where
  pub aggregation : Option String
  pub change_absolute : Option N
  pub change_point : Option (ChangePointDto N)
  pub change_relative_pct : Option N
  pub compared_value : Option N
  pub display_name : String
  pub key_sli : Bool
  pub metric : String
  pub pass_targets : Option (List (PassTargetDto N))
  pub score : N
  pub status : String
  pub tab_group : Option String
  pub value : Option N
  pub warning_targets : Option (List (PassTargetDto N))
  pub weight : N

pub record SliMetadataDto (N : Type 0) : Type 0 where
  pub mode : String
  pub expected_samples : N
  pub actual_samples : N
  pub missing_pct : N
  pub chunks_failed : N

pub record EvaluationSummaryDto (N J : Type 0) : Type 0 where
  pub adapter_used : Option String
  pub annotation_count : Option N
  pub asset_snapshot : AssetSnapshotDto
  pub baseline_pin_author : Option String
  pub baseline_pin_reason : Option String
  pub baseline_pinned_at : Option String
  pub baseline_unpinned_at : Option String
  pub created_at : String
  pub data_source_name : Option String
  pub evaluation_id : String
  pub evaluation_name : String
  pub id : String
  pub ingestion_mode : String
  pub invalidated : Bool
  pub latest_annotation : Option (AnnotationDto J)
  pub original_result : Option String
  pub original_score : Option N
  pub override_author : Option String
  pub override_reason : Option String
  pub period_end : String
  pub period_start : String
  pub result : Option String
  pub score : Option N
  pub sli_name : Option String
  pub sli_version : Option N
  pub slo_name : Option String
  pub slo_version : Option N
  pub status : String
  pub top_failures : Option (List (FailingIndicatorDto N))
  pub variables : Option (Map String)

-- The fields of the summary, as `summary`, and those that the detail adds.
pub record EvaluationDetailDto (N J : Type 0) : Type 0 where
  pub summary : EvaluationSummaryDto N J
  pub annotations : Option (List (AnnotationDto J))
  pub compared_evaluation_ids : Option (List String)
  pub indicator_results : Option (List (IndicatorResultDto N))
  pub invalidation_note : Option String
  pub sli_metadata : Option (Map (SliMetadataDto N))
  pub total_score_pass_threshold : Option N
  pub total_score_warning_threshold : Option N

pub record EvaluationListDto (N J : Type 0) : Type 0 where
  pub items : List (EvaluationSummaryDto N J)
  pub total : N
  pub truncated : Bool

pub record TrendTargetsDto (N : Type 0) : Type 0 where
  pub pass : Option (List (PassTargetDto N))
  pub warn : Option (List (PassTargetDto N))

pub record TrendPointDto (N : Type 0) : Type 0 where
  pub baseline : Option N
  pub change_point : Option (ChangePointDto N)
  pub eval_id : String
  pub evaluation_name : Option String
  pub result : String
  pub score : N
  pub targets : Option (TrendTargetsDto N)
  pub timestamp : String
  pub value : N

pub record ReEvalResultItemDto (N : Type 0) : Type 0 where
  pub id : String
  pub evaluation_name : String
  pub slo_name : String
  pub slo_version : N
  pub period_start : String
  pub period_end : String
  pub old_result : String
  pub new_result : String
  pub old_score : N
  pub new_score : N

pub record ReEvaluateResponseDto (N : Type 0) : Type 0 where
  pub affected_evaluations : N
  pub slo_version_used : Option N
  pub results : List (ReEvalResultItemDto N)

pub record EvaluationNameEntryDto (N : Type 0) : Type 0 where
  pub name : String
  pub count : N
  pub last_run : String
