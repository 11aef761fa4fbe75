-- ===== src/Registry/Names.antt =====
-- Reading a tree back: the names of the nodes of one type, and the trees without their badges.
use tropek.Prelude.{String, Bool, true, false, none, List, [], ◌∷◌, ◌++◌, if◌then◌else◌}
use tropek.Registry.Types.{NodeType, NodeInfo, TreeNode, leaf, branch, Nodes, nil, cons}

abbrev pub is_datasource : NodeType → Bool
is_datasource NodeType.datasource = true
is_datasource _ = false

abbrev pub is_slo : NodeType → Bool
is_slo NodeType.slo = true
is_slo _ = false

abbrev pub own_name : (NodeType → Bool) → NodeInfo → List String
own_name wanted i = if wanted i.type then i.name ∷ [] else []

-- The names of the wanted nodes of a tree, from the root down.
unfoldable mutual
  pub names_in : (NodeType → Bool) → TreeNode → List String
  names_in wanted (leaf i) = own_name wanted i
  names_in wanted (branch i ts) = own_name wanted i ++ names_in_all wanted ts

  pub names_in_all : (NodeType → Bool) → Nodes → List String
  names_in_all wanted nil = []
  names_in_all wanted (cons t ts) = names_in wanted t ++ names_in_all wanted ts

abbrev pub clear_badge : NodeInfo → NodeInfo
clear_badge i = elim i.type [ NodeType.sli ↦ record i { badge = none } | _ ↦ i ]

-- The tree with the badges of its SLI nodes removed.
unfoldable mutual
  pub erase_sli_badges : TreeNode → TreeNode
  erase_sli_badges (leaf i) = leaf (clear_badge i)
  erase_sli_badges (branch i ts) = branch (clear_badge i) (erase_all ts)

  pub erase_all : Nodes → Nodes
  erase_all nil = nil
  erase_all (cons t ts) = cons (erase_sli_badges t) (erase_all ts)
