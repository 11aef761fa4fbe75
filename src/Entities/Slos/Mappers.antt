-- ===== src/Entities/Slos/Mappers.antt =====
-- From the answers of the API to the SLOs of the interface: features/slos/mappers.ts.
use tropek.Prelude.{String, Option, none, some, [], ◌∷◌, map, or_default, map?}
use tropek.Js.Map.{Map, set}
use tropek.Entities.Slos.{
  SloObjectiveDto, SloObjectiveInDto, SloComparisonConfigDto, MethodCriteriaOverrideDto, SloDto,
  SloAssignmentDto, SloGroupAssignmentDto, SloValidationResultDto, MethodCriteriaOverride,
  SloObjective, SloComparisonConfig, Slo, SloValidationObjective, SloValidationResult,
  SloAssignment, SloGroupAssignment,
}

unfoldable pub dto_to_comparison :
    {N : Type 0} → Option (SloComparisonConfigDto N) → SloComparisonConfig N
dto_to_comparison none = record {
  compare_with = none;
  include_result_with_score = none;
  number_of_comparison_results = none;
  aggregate_function = none;
  scope_tags = none;
}
dto_to_comparison (some dto) = record {
  compare_with = dto.compare_with;
  include_result_with_score = dto.include_result_with_score;
  number_of_comparison_results = dto.number_of_comparison_results;
  aggregate_function = dto.aggregate_function;
  scope_tags = dto.scope_tags;
}

unfoldable pub dto_to_method_criteria_override :
    {N : Type 0} → MethodCriteriaOverrideDto N → MethodCriteriaOverride N
dto_to_method_criteria_override dto = record {
  method = dto.method;
  aggregation = dto.aggregation;
  pass_threshold = dto.pass_threshold;
  warning_threshold = dto.warning_threshold;
  weight = dto.weight;
  key_sli = dto.key_sli;
}

unfoldable pub add_override :
    {N : Type 0}
    → Map (MethodCriteriaOverride N)
    → Map (MethodCriteriaOverrideDto N)
    → Map (MethodCriteriaOverride N)
unfolding dto_to_method_criteria_override set
add_override out [] = out
add_override out ((key, value) ∷ entries) =
    add_override (set out key (dto_to_method_criteria_override value)) entries

unfoldable pub dto_to_method_criteria :
    {N : Type 0}
    → Option (Map (MethodCriteriaOverrideDto N))
    → Option (Map (MethodCriteriaOverride N))
unfolding add_override
dto_to_method_criteria none = none
dto_to_method_criteria (some dto) = some (add_override [] dto)

unfoldable pub dto_to_objective : {N J : Type 0} → SloObjectiveDto N J → SloObjective N
dto_to_objective dto = record {
  sli = dto.sli;
  display_name = dto.display_name;
  pass_threshold = or_default dto.pass_threshold [];
  warning_threshold = or_default dto.warning_threshold [];
  weight = dto.weight;
  key_sli = dto.key_sli;
  sort_order = dto.sort_order;
}

unfoldable pub dto_to_validation_objective :
    {N J : Type 0} → SloObjectiveInDto N J → SloValidationObjective N
dto_to_validation_objective dto = record {
  sli = dto.sli;
  display_name = dto.display_name;
  pass_threshold = or_default dto.pass_threshold [];
  warning_threshold = or_default dto.warning_threshold [];
  weight = dto.weight;
  key_sli = dto.key_sli;
}

unfoldable pub dto_to_slo : {N D J : Type 0} → (String → D) → SloDto N J → Slo N D
unfolding dto_to_objective dto_to_method_criteria dto_to_comparison
dto_to_slo new_date dto = record {
  id = dto.id;
  name = dto.name;
  version = dto.version;
  comparable_from_version = dto.comparable_from_version;
  display_name = dto.display_name;
  author = dto.author;
  notes = dto.notes;
  tags = dto.tags;
  variables = dto.variables;
  kind = dto.kind;
  sli_definition_id = dto.sli_definition_id;
  sli_name = dto.sli_name;
  sli_version = dto.sli_version;
  created_at = new_date dto.created_at;
  active = dto.active;
  objectives = map dto_to_objective dto.objectives;
  total_score_pass_threshold = dto.total_score_pass_threshold;
  total_score_warning_threshold = dto.total_score_warning_threshold;
  comparison = dto_to_comparison (some dto.comparison);
  method_criteria = dto_to_method_criteria dto.method_criteria;
}

unfoldable pub dto_to_slo_assignment :
    {N D J : Type 0} → (String → D) → SloAssignmentDto N J → SloAssignment N D J
dto_to_slo_assignment new_date dto = record {
  id = dto.id;
  asset_id = dto.asset_id;
  asset_group_id = dto.asset_group_id;
  slo_definition_id = dto.slo_definition_id;
  slo_name = dto.slo_name;
  slo_version = dto.slo_version;
  data_source_id = dto.data_source_id;
  data_source_name = dto.data_source_name;
  comparison_rules = dto.comparison_rules;
  created_at = new_date dto.created_at;
}

unfoldable pub dto_to_slo_group_assignment :
    {D : Type 0} → (String → D) → SloGroupAssignmentDto → SloGroupAssignment D
dto_to_slo_group_assignment new_date dto = record {
  id = dto.id;
  asset_id = dto.asset_id;
  asset_group_id = dto.asset_group_id;
  slo_group_id = dto.slo_group_id;
  slo_group_name = dto.slo_group_name;
  data_source_id = dto.data_source_id;
  data_source_name = dto.data_source_name;
  created_at = new_date dto.created_at;
}

unfoldable pub dto_to_slo_validation_result :
    {N J : Type 0} → SloValidationResultDto N J → SloValidationResult N
unfolding dto_to_validation_objective
dto_to_slo_validation_result dto = record {
  valid = dto.valid;
  errors = map (λ error. record { field = error.field; message = error.message }) dto.errors;
  objectives = map? (map dto_to_validation_objective) dto.objectives;
}
