-- ===== src/Evaluations/Domain.antt =====
-- features/evaluations/domain.ts, lib/dateRange.ts and features/note-categories/domain.ts. `N` are
-- the numbers, `D` the dates and `J` the values of any kind (`unknown`).
use tropek.Prelude.{String, Bool, Option, List}
use tropek.Js.Map.{Map}
use tropek.Results.{Outcome}

pub record DateRange : Type 0 where
  pub from : String
  pub to : String

pub record NoteCategory (D : Type 0) : Type 0 where
  pub id : String
  pub name : String
  pub label : String
  pub color : String
  pub show_on_graph : Bool
  pub is_system : Bool
  pub created_at : D
  pub updated_at : Option D

pub record AssetSnapshot : Type 0 where
  pub asset_id : Option String
  pub name : String
  pub display_name : Option String
  pub tags : Map String
  pub primary_version : Option String
  pub build_ref : Option String

pub record BaselinePin (D : Type 0) : Type 0 where
  pub author : String
  pub reason : String
  pub pinned_at : D
  pub unpinned_at : Option D

pub record Annotation (D J : Type 0) : Type 0 where
  pub id : String
  pub slo_evaluation_id : Option String
  pub evaluation_run_id : Option String
  pub content : String
  pub author : Option String
  pub category_id : String
  pub category : NoteCategory D
  pub tags : Map J
  pub note_group_id : Option String
  pub note_group_name : Option String
  pub hidden_at : Option D
  pub hidden_by : Option String
  pub hidden_reason : Option String
  pub created_at : D
  pub updated_at : Option D

pub record FailingIndicator (N : Type 0) : Type 0 where
  pub metric : String
  pub display_name : String
  pub value : Option N
  pub threshold : String

-- `PassTarget`, and `TrendTargetEntry` with the same fields.
pub record PassTarget (N : Type 0) : Type 0 where
  pub criteria : String
  pub target_value : N
  pub violated : Bool

pub record ChangePointMarker (N : Type 0) : Type 0 where
  pub direction : String
  pub change_relative_pct : Option N
  pub transition : Option String
  pub change_absolute : Option N

pub record Indicator (N : Type 0) : Type 0 where
  pub metric : String
  pub display_name : String
  pub tab_group : Option String
  pub value : Option N
  pub compared_value : Option N
  pub change_absolute : Option N
  pub change_relative_pct : Option N
  pub aggregation : Option String
  pub status : String
  pub score : N
  pub weight : N
  pub key_sli : Bool
  pub pass_targets : List (PassTarget N)
  pub warning_targets : List (PassTarget N)
  pub change_point : Option (ChangePointMarker N)

pub record SliMetadata (N : Type 0) : Type 0 where
  pub mode : String
  pub expected_samples : N
  pub actual_samples : N
  pub missing_pct : N
  pub chunks_failed : N

pub record Evaluation (N D J : Type 0) : Type 0 where
  pub id : String
  pub evaluation_id : String
  pub evaluation_name : String
  pub status : String
  pub outcome : Outcome
  pub score : Option N
  pub period : DateRange
  pub slo_name : Option String
  pub slo_version : Option N
  pub sli_name : Option String
  pub sli_version : Option N
  pub data_source_name : Option String
  pub ingestion_mode : String
  pub adapter_used : Option String
  pub invalidated : Bool
  pub original_outcome : Option Outcome
  pub original_score : Option N
  pub override_reason : Option String
  pub override_author : Option String
  pub asset_snapshot : AssetSnapshot
  pub variables : Map String
  pub baseline_pin : Option (BaselinePin D)
  pub latest_annotation : Option (Annotation D J)
  pub annotation_count : N
  pub created_at : D
  pub top_failures : List (FailingIndicator N)

-- `EvaluationDetail`: the fields of `Evaluation`, as `summary`, and those of the detail.
pub record EvaluationDetail (N D J : Type 0) : Type 0 where
  pub summary : Evaluation N D J
  pub invalidation_note : Option String
  pub compared_evaluation_ids : List String
  pub annotations : List (Annotation D J)
  pub indicators : List (Indicator N)
  pub total_score_pass_threshold : Option N
  pub total_score_warning_threshold : Option N
  pub sli_metadata : Map (SliMetadata N)

pub record EvaluationList (N D J : Type 0) : Type 0 where
  pub items : List (Evaluation N D J)
  pub total : N
  pub truncated : Bool

pub record TrendTargets (N : Type 0) : Type 0 where
  pub pass : List (PassTarget N)
  pub warn : List (PassTarget N)

pub record TrendPoint (N D : Type 0) : Type 0 where
  pub timestamp : D
  pub value : N
  pub score : N
  pub eval_id : String
  pub outcome : Outcome
  pub baseline : Option N
  pub evaluation_name : Option String
  pub targets : Option (TrendTargets N)
  pub overridden : Bool
  pub change_point : Option (ChangePointMarker N)

pub record ReEvaluateResultItem (N : Type 0) : Type 0 where
  pub id : String
  pub evaluation_name : String
  pub slo_name : String
  pub slo_version : N
  pub period : DateRange
  pub old_outcome : Outcome
  pub new_outcome : Outcome
  pub old_score : N
  pub new_score : N

pub record ReEvaluateResponse (N : Type 0) : Type 0 where
  pub affected_evaluations : N
  pub slo_version_used : Option N
  pub results : List (ReEvaluateResultItem N)

pub record EvaluationNameEntry (N D : Type 0) : Type 0 where
  pub name : String
  pub count : N
  pub last_run : D

pub record BulkActionOutcome (N : Type 0) : Type 0 where
  pub succeeded : List String
  pub not_found : List String
  pub updated : N
