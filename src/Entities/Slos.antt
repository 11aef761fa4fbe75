-- ===== src/Entities/Slos.antt =====
-- SLOs and their assignments: features/slos/domain.ts and the answers of the API that mappers.ts
-- reads.
use tropek.Prelude.{
  ℕ, zero, suc, ◌+◌, ◌-◌, ◌*◌, ◌/◌, ◌%◌, ◌≤◌, ◌<◌, String, ◌≡◌, refl, sym, ap, ◌∙◌, ◌≢◌, ◌↔◌, ◌⊎◌,
  inl, inr, Bool, true, false, not, ◌&&◌, ◌||◌, Option, none, some, List, [], ◌∷◌, ◌++◌, map,
  reverse, arith, ◌==◌, eq_iff, eq_refl, ltb, leb, eqb, if◌then◌else◌, Bool-cases, Bool_ext,
  Option-cases, or_default, or_else, and_then, map?, is_some, length, get_elem?, filter, find, any,
  All, Any, length-append, length-map, length-reverse, get_elem?-append_left,
  get_elem?-append_length, get_elem?-reverse, get_elem?-map, All-append, ltb→lt, lt→ltb, leb→le,
  eqb→eq, eqb_refl, tests, min, max,
}
use tropek.Js.Map.{
  contains, IsDistinct, Map, keys, get, set, set_all, from_entries, find_last, get-set,
  get-from_entries, contains-keys-set, keys-set-IsDistinct, contains-keys,
}
use tropek.Js.Unique.{
  unique_from, unique_by, unique, unique_by-IsDistinct, contains-unique_by, find-unique_by,
  All-unique_by, Any-of_contains, contains_of-Any,
}
use tropek.Js.Text.{◌+++◌, decimal}
use tropek.Js.MultiMap.{
  push_at, non_empty, more, more_nil, more-more, get-push_at, values, values-push_at-perm,
}
pub mod Mappers

pub record SloObjectiveDto (N J : Type 0) : Type 0 where
  pub change_point : Option J
  pub display_name : String
  pub key_sli : Bool
  pub pass_threshold : Option (List String)
  pub sli : String
  pub sort_order : N
  pub warning_threshold : Option (List String)
  pub weight : N

pub record SloObjectiveInDto (N J : Type 0) : Type 0 where
  pub change_point : Option J
  pub display_name : String
  pub key_sli : Bool
  pub pass_threshold : Option (List String)
  pub sli : String
  pub warning_threshold : Option (List String)
  pub weight : N

pub record SloComparisonConfigDto (N : Type 0) : Type 0 where
  pub aggregate_function : Option String
  pub compare_with : Option String
  pub include_result_with_score : Option String
  pub number_of_comparison_results : Option N
  pub scope_tags : Option (List String)

pub record MethodCriteriaOverrideDto (N : Type 0) : Type 0 where
  pub aggregation : Option String
  pub key_sli : Option Bool
  pub method : Option String
  pub pass_threshold : Option (List String)
  pub warning_threshold : Option (List String)
  pub weight : Option N

pub record SloDto (N J : Type 0) : Type 0 where
  pub active : Bool
  pub author : Option String
  pub comparable_from_version : N
  pub comparison : SloComparisonConfigDto N
  pub created_at : String
  pub display_name : Option String
  pub id : String
  pub kind : String
  pub method_criteria : Option (Map (MethodCriteriaOverrideDto N))
  pub name : String
  pub notes : Option String
  pub objectives : List (SloObjectiveDto N J)
  pub sli_definition_id : Option String
  pub sli_name : Option String
  pub sli_version : Option N
  pub tags : Map String
  pub total_score_pass_threshold : N
  pub total_score_warning_threshold : N
  pub variables : Map String
  pub version : N

pub record SloAssignmentDto (N J : Type 0) : Type 0 where
  pub asset_group_id : Option String
  pub asset_id : Option String
  pub comparison_rules : Option (List (Map J))
  pub created_at : String
  pub data_source_id : String
  pub data_source_name : String
  pub id : String
  pub slo_definition_id : String
  pub slo_name : String
  pub slo_version : N

pub record SloGroupAssignmentDto : Type 0 where
  pub asset_group_id : Option String
  pub asset_id : Option String
  pub created_at : String
  pub data_source_id : String
  pub data_source_name : String
  pub id : String
  pub slo_group_id : String
  pub slo_group_name : String

pub record SloValidationErrorDto : Type 0 where
  pub field : String
  pub message : String

pub record SloValidationResultDto (N J : Type 0) : Type 0 where
  pub errors : List SloValidationErrorDto
  pub objectives : Option (List (SloObjectiveInDto N J))
  pub valid : Bool

pub record MethodCriteriaOverride (N : Type 0) : Type 0 where
  pub method : Option String
  pub aggregation : Option String
  pub pass_threshold : Option (List String)
  pub warning_threshold : Option (List String)
  pub weight : Option N
  pub key_sli : Option Bool

pub record SloObjective (N : Type 0) : Type 0 where
  pub sli : String
  pub display_name : String
  pub pass_threshold : List String
  pub warning_threshold : List String
  pub weight : N
  pub key_sli : Bool
  pub sort_order : N

pub record SloComparisonConfig (N : Type 0) : Type 0 where
  pub compare_with : Option String
  pub include_result_with_score : Option String
  pub number_of_comparison_results : Option N
  pub aggregate_function : Option String
  pub scope_tags : Option (List String)

pub record Slo (N D : Type 0) : Type 0 where
  pub id : String
  pub name : String
  pub version : N
  pub comparable_from_version : N
  pub display_name : Option String
  pub author : Option String
  pub notes : Option String
  pub tags : Map String
  pub variables : Map String
  pub kind : String
  pub sli_definition_id : Option String
  pub sli_name : Option String
  pub sli_version : Option N
  pub created_at : D
  pub active : Bool
  pub objectives : List (SloObjective N)
  pub total_score_pass_threshold : N
  pub total_score_warning_threshold : N
  pub comparison : SloComparisonConfig N
  pub method_criteria : Option (Map (MethodCriteriaOverride N))

pub record SloValidationError : Type 0 where
  pub field : String
  pub message : String

pub record SloValidationObjective (N : Type 0) : Type 0 where
  pub sli : String
  pub display_name : String
  pub pass_threshold : List String
  pub warning_threshold : List String
  pub weight : N
  pub key_sli : Bool

pub record SloValidationResult (N : Type 0) : Type 0 where
  pub valid : Bool
  pub errors : List SloValidationError
  pub objectives : Option (List (SloValidationObjective N))

pub record SloAssignment (N D J : Type 0) : Type 0 where
  pub id : String
  pub asset_id : Option String
  pub asset_group_id : Option String
  pub slo_definition_id : String
  pub slo_name : String
  pub slo_version : N
  pub data_source_id : String
  pub data_source_name : String
  pub comparison_rules : Option (List (Map J))
  pub created_at : D

pub record SloGroupAssignment (D : Type 0) : Type 0 where
  pub id : String
  pub asset_id : Option String
  pub asset_group_id : Option String
  pub slo_group_id : String
  pub slo_group_name : String
  pub data_source_id : String
  pub data_source_name : String
  pub created_at : D
