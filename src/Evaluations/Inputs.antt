-- ===== src/Evaluations/Inputs.antt =====
-- features/evaluations/mappers.ts: the other inputs that become requests, and the answer to a bulk
-- action. `J` are the values of the tags.
use tropek.Prelude.{String, ◌≡◌, refl, Option, List, [], map}
use tropek.Js.Map.{Map}
use tropek.Evaluations.Domain.{DateRange, BulkActionOutcome}

pub data OverridableOutcome : Type 0 where
  pass warning fail : OverridableOutcome

pub record TriggerEvaluationInput : Type 0 where
  pub asset_name : String
  pub eval_name : String
  pub period : DateRange
  pub variables : Map String

pub record EvaluateSingleRequestDto : Type 0 where
  pub asset_name : String
  pub eval_name : String
  pub period_start : String
  pub period_end : String
  pub variables : Map String

unfoldable pub trigger_evaluation_input_to_dto : TriggerEvaluationInput → EvaluateSingleRequestDto
trigger_evaluation_input_to_dto input = record {
  asset_name = input.asset_name;
  eval_name = input.eval_name;
  period_start = input.period.from;
  period_end = input.period.to;
  variables = input.variables;
}

pub record OverrideStatusInput : Type 0 where
  pub outcome : OverridableOutcome
  pub reason : String
  pub author : String

pub record OverrideStatusRequestDto : Type 0 where
  pub new_result : OverridableOutcome
  pub reason : String
  pub author : String

unfoldable pub override_status_input_to_dto : OverrideStatusInput → OverrideStatusRequestDto
override_status_input_to_dto input = record {
  new_result = input.outcome;
  reason = input.reason;
  author = input.author;
}

pub record AnnotationCreateInput : Type 0 where
  pub content : String
  pub category_id : String
  pub author : Option String

pub record AnnotationCreateDto (J : Type 0) : Type 0 where
  pub content : String
  pub category_id : String
  pub author : Option String
  pub tags : Map J

unfoldable pub annotation_create_input_to_dto :
    {J : Type 0} → AnnotationCreateInput → AnnotationCreateDto J
annotation_create_input_to_dto input = record {
  content = input.content;
  category_id = input.category_id;
  author = input.author;
  tags = [];
}

-- The field of a result that the mapper reads.
pub record BulkActionResultDto : Type 0 where
  pub evaluation_id : String

pub record BulkActionResponseDto (N : Type 0) : Type 0 where
  pub not_found : List String
  pub results : List BulkActionResultDto
  pub updated : N

unfoldable pub dto_to_bulk_action_outcome :
    {N : Type 0} → BulkActionResponseDto N → BulkActionOutcome N
dto_to_bulk_action_outcome dto = record {
  succeeded = map (λ result. result.evaluation_id) dto.results;
  not_found = dto.not_found;
  updated = dto.updated;
}

trigger_evaluation_test :
    (trigger_evaluation_input_to_dto (record {
      asset_name = "a";
      eval_name = "n";
      period = record { from = "t"; to = "u" };
      variables = [];
    })).period_end
    ≡ "u"
unfolding trigger_evaluation_input_to_dto
trigger_evaluation_test = refl
