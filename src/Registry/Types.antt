-- ===== src/Registry/Types.antt =====
-- The rows that the registry trees are built from, and the tree nodes that they become
-- (the interfaces of useRegistryTree.ts, ui-types.ts and slo-groups/domain.ts).
use tropek.Prelude.{ℕ, String, Bool, Option, none, List, [], ◌∷◌}
use tropek.Js.Map.{Map}

pub record MinSlo : Type 0 where
  pub name : String
  pub display_name : Option String
  pub version : ℕ
  pub active : Bool
  pub sli_name : Option String
  pub sli_version : Option ℕ
  pub kind : Option String
  pub tags : Option (Map String)

pub record MinSli : Type 0 where
  pub name : String
  pub display_name : Option String
  pub adapter_type : String
  pub active : Bool
  pub indicators : Option (Map String)

pub record MinDs : Type 0 where
  pub name : String
  pub display_name : Option String
  pub adapter_type : String

pub record MinBinding : Type 0 where
  pub slo_name : String
  pub data_source_name : String

pub record MinMember : Type 0 where
  pub asset_name : String
  pub asset_type_name : Option String

pub record MinSubgroup : Type 0 where
  pub group_id : String
  pub group_name : String

pub record MinGroup : Type 0 where
  pub name : String
  pub display_name : Option String
  pub members : Option (List MinMember)
  pub subgroups : Option (List MinSubgroup)

pub record MinGroupAssignment : Type 0 where
  pub slo_group_name : String
  pub data_source_name : String

-- The fields of an SLO group that the trees read.
pub record SloGroup : Type 0 where
  pub name : String
  pub display_name : Option String
  pub template_slo_name : String
  pub active : Bool
  pub generated_slo_count : ℕ

pub data NodeType : Type 0 where
  group asset slo sli datasource binding template slo_group : NodeType

-- The fields of a node other than its children. `bindingChain` is set nowhere in these builders.
pub record NodeInfo : Type 0 where
  pub id : String
  pub name : String
  pub display_name : Option String
  pub type : NodeType
  pub badge : Option String
  pub subtitle : Option String
  pub group_name : Option String
  pub asset_type_name : Option String

-- A `leaf` has `children: undefined`; a `branch` has an array, which may be empty.
mutual
  pub data TreeNode : Type 0 where
    leaf : NodeInfo → TreeNode
    branch : NodeInfo → Nodes → TreeNode

  pub data Nodes : Type 0 where
    nil : Nodes
    cons : TreeNode → Nodes → Nodes

abbrev pub to_nodes : List TreeNode → Nodes
to_nodes [] = nil
to_nodes (t ∷ ts) = cons t (to_nodes ts)

abbrev pub from_nodes : Nodes → List TreeNode
from_nodes nil = []
from_nodes (cons t ts) = t ∷ from_nodes ts

abbrev pub info : TreeNode → NodeInfo
info (leaf i) = i
info (branch i ts) = i

-- `node.children ?? []`
abbrev pub children : TreeNode → Nodes
children (leaf i) = nil
children (branch i ts) = ts

abbrev pub plain : String → String → NodeType → NodeInfo
plain id name type = record {
  id = id;
  name = name;
  display_name = none;
  type = type;
  badge = none;
  subtitle = none;
  group_name = none;
  asset_type_name = none;
}
