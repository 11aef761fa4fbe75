-- ===== src/Entities/Assets.antt =====
-- Assets, their types and groups: features/assets/domain.ts and mappers.ts with the answers of the
-- API that they read.
use tropek.Prelude.{String, Bool, Option, List, map}
use tropek.Js.Map.{Map}

pub record AssetDto (J : Type 0) : Type 0 where
  pub color : Option String
  pub created_at : String
  pub display_name : Option String
  pub heatmap_config : Option (Map J)
  pub id : String
  pub name : String
  pub tags : Map String
  pub type_name : String
  pub updated_at : String
  pub variables : Map String

pub record AssetTypeDto (N : Type 0) : Type 0 where
  pub asset_count : N
  pub id : String
  pub is_default : Bool
  pub name : String

pub record AssetGroupMemberDto (N : Type 0) : Type 0 where
  pub asset_display_name : Option String
  pub asset_id : String
  pub asset_name : String
  pub asset_type_name : String
  pub weight : N

pub record AssetGroupSubgroupDto (N : Type 0) : Type 0 where
  pub group_id : String
  pub group_name : String
  pub weight : N

pub record AssetGroupDto (N : Type 0) : Type 0 where
  pub color : Option String
  pub created_at : String
  pub description : Option String
  pub display_name : Option String
  pub id : String
  pub members : List (AssetGroupMemberDto N)
  pub name : String
  pub subgroups : List (AssetGroupSubgroupDto N)
  pub updated_at : String

pub record AssetGroupTreeDto (N : Type 0) : Type 0 where
  pub all_groups : List (AssetGroupDto N)
  pub top_level : List (AssetGroupDto N)

pub record Asset (D J : Type 0) : Type 0 where
  pub id : String
  pub name : String
  pub display_name : Option String
  pub type_name : String
  pub color : Option String
  pub tags : Map String
  pub variables : Map String
  pub heatmap_config : Option (Map J)
  pub created_at : D
  pub updated_at : D

pub record AssetType (N : Type 0) : Type 0 where
  pub id : String
  pub name : String
  pub is_default : Bool
  pub asset_count : N

pub record AssetGroupMember (N : Type 0) : Type 0 where
  pub asset_id : String
  pub asset_name : String
  pub asset_display_name : Option String
  pub asset_type_name : String
  pub weight : N

pub record AssetGroupSubgroup (N : Type 0) : Type 0 where
  pub group_id : String
  pub group_name : String
  pub weight : N

pub record AssetGroup (N D : Type 0) : Type 0 where
  pub id : String
  pub name : String
  pub display_name : Option String
  pub description : Option String
  pub color : Option String
  pub members : List (AssetGroupMember N)
  pub subgroups : List (AssetGroupSubgroup N)
  pub created_at : D
  pub updated_at : D

pub record AssetGroupTree (N D : Type 0) : Type 0 where
  pub top_level : List (AssetGroup N D)
  pub all_groups : List (AssetGroup N D)

unfoldable pub dto_to_asset : {D J : Type 0} → (String → D) → AssetDto J → Asset D J
dto_to_asset new_date dto = record {
  id = dto.id;
  name = dto.name;
  display_name = dto.display_name;
  type_name = dto.type_name;
  color = dto.color;
  tags = dto.tags;
  variables = dto.variables;
  heatmap_config = dto.heatmap_config;
  created_at = new_date dto.created_at;
  updated_at = new_date dto.updated_at;
}

unfoldable pub dto_to_asset_type : {N : Type 0} → AssetTypeDto N → AssetType N
dto_to_asset_type dto = record {
  id = dto.id;
  name = dto.name;
  is_default = dto.is_default;
  asset_count = dto.asset_count;
}

unfoldable pub dto_to_asset_group_member : {N : Type 0} → AssetGroupMemberDto N → AssetGroupMember N
dto_to_asset_group_member dto = record {
  asset_id = dto.asset_id;
  asset_name = dto.asset_name;
  asset_display_name = dto.asset_display_name;
  asset_type_name = dto.asset_type_name;
  weight = dto.weight;
}

unfoldable pub dto_to_asset_group_subgroup :
    {N : Type 0} → AssetGroupSubgroupDto N → AssetGroupSubgroup N
dto_to_asset_group_subgroup dto = record {
  group_id = dto.group_id;
  group_name = dto.group_name;
  weight = dto.weight;
}

unfoldable pub dto_to_asset_group : {N D : Type 0} → (String → D) → AssetGroupDto N → AssetGroup N D
unfolding dto_to_asset_group_member dto_to_asset_group_subgroup
dto_to_asset_group new_date dto = record {
  id = dto.id;
  name = dto.name;
  display_name = dto.display_name;
  description = dto.description;
  color = dto.color;
  members = map dto_to_asset_group_member dto.members;
  subgroups = map dto_to_asset_group_subgroup dto.subgroups;
  created_at = new_date dto.created_at;
  updated_at = new_date dto.updated_at;
}

unfoldable pub dto_to_asset_group_tree :
    {N D : Type 0} → (String → D) → AssetGroupTreeDto N → AssetGroupTree N D
unfolding dto_to_asset_group
dto_to_asset_group_tree new_date dto = record {
  top_level = map (dto_to_asset_group new_date) dto.top_level;
  all_groups = map (dto_to_asset_group new_date) dto.all_groups;
}
