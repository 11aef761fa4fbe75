-- ===== src/Entities/Datasources.antt =====
-- Datasources: features/datasources/domain.ts and mappers.ts.
use tropek.Prelude.{String, Bool, Option}
use tropek.Js.Map.{Map}

pub record DatasourceDto : Type 0 where
  pub adapter_type : String
  pub adapter_url : String
  pub created_at : String
  pub display_name : Option String
  pub has_token : Bool
  pub id : String
  pub name : String
  pub tags : Map String
  pub updated_at : String

pub record Datasource (D : Type 0) : Type 0 where
  pub id : String
  pub name : String
  pub display_name : Option String
  pub adapter_type : String
  pub adapter_url : String
  pub tags : Map String
  pub has_token : Bool
  pub created_at : D
  pub updated_at : D

unfoldable pub dto_to_datasource : {D : Type 0} → (String → D) → DatasourceDto → Datasource D
dto_to_datasource new_date dto = record {
  id = dto.id;
  name = dto.name;
  display_name = dto.display_name;
  adapter_type = dto.adapter_type;
  adapter_url = dto.adapter_url;
  tags = dto.tags;
  has_token = dto.has_token;
  created_at = new_date dto.created_at;
  updated_at = new_date dto.updated_at;
}
