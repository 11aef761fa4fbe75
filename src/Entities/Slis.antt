-- ===== src/Entities/Slis.antt =====
-- SLIs: features/slis/domain.ts and mappers.ts.
use tropek.Prelude.{String, Bool, Option, List}
use tropek.Js.Map.{Map}

pub record SliDto (N : Type 0) : Type 0 where
  pub active : Bool
  pub adapter_type : String
  pub author : Option String
  pub comparable_from_version : N
  pub created_at : String
  pub display_name : Option String
  pub id : String
  pub indicators : Map String
  pub interval : Option String
  pub methods : Option (List String)
  pub mode : String
  pub name : String
  pub notes : Option String
  pub query_template : Option String
  pub tags : Map String
  pub version : N

pub record Sli (N D : Type 0) : Type 0 where
  pub id : String
  pub name : String
  pub display_name : Option String
  pub adapter_type : String
  pub version : N
  pub comparable_from_version : N
  pub indicators : Map String
  pub mode : String
  pub query_template : Option String
  pub interval : Option String
  pub methods : Option (List String)
  pub notes : Option String
  pub author : Option String
  pub tags : Map String
  pub active : Bool
  pub created_at : D

unfoldable pub dto_to_sli : {N D : Type 0} → (String → D) → SliDto N → Sli N D
dto_to_sli new_date dto = record {
  id = dto.id;
  name = dto.name;
  display_name = dto.display_name;
  adapter_type = dto.adapter_type;
  version = dto.version;
  comparable_from_version = dto.comparable_from_version;
  indicators = dto.indicators;
  mode = dto.mode;
  query_template = dto.query_template;
  interval = dto.interval;
  methods = dto.methods;
  notes = dto.notes;
  author = dto.author;
  tags = dto.tags;
  active = dto.active;
  created_at = new_date dto.created_at;
}
