-- ===== src/Entities/SloGroups.antt =====
-- SLO groups: features/slo-groups/domain.ts and mappers.ts.
use tropek.Prelude.{String, Bool, Option, List}
use tropek.Js.Map.{Map}

pub record SloGroupDto (N : Type 0) : Type 0 where
  pub active : Bool
  pub author : Option String
  pub created_at : String
  pub display_name : Option String
  pub gen_variables : Map (List String)
  pub generated_slo_count : N
  pub id : String
  pub name : String
  pub tags : Map String
  pub template_slo_definition_id : String
  pub template_slo_name : String
  pub template_slo_version : N
  pub updated_at : String
  pub version : N

pub record SloGroup (N D : Type 0) : Type 0 where
  pub id : String
  pub name : String
  pub display_name : Option String
  pub template_slo_name : String
  pub template_slo_version : N
  pub gen_variables : Map (List String)
  pub tags : Map String
  pub author : Option String
  pub version : N
  pub active : Bool
  pub created_at : D
  pub updated_at : D
  pub generated_slo_count : N

unfoldable pub dto_to_slo_group : {N D : Type 0} → (String → D) → SloGroupDto N → SloGroup N D
dto_to_slo_group new_date dto = record {
  id = dto.id;
  name = dto.name;
  display_name = dto.display_name;
  template_slo_name = dto.template_slo_name;
  template_slo_version = dto.template_slo_version;
  gen_variables = dto.gen_variables;
  tags = dto.tags;
  author = dto.author;
  version = dto.version;
  active = dto.active;
  created_at = new_date dto.created_at;
  updated_at = new_date dto.updated_at;
  generated_slo_count = dto.generated_slo_count;
}
