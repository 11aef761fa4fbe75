-- ===== src/Registry/Filter.antt =====
-- `filterTree` of useRegistryTree.ts. The lower-casing of texts and the substring test are
-- JavaScript's own; the proofs take both as parameters and rely on no law of theirs.
pub mod Laws
use tropek.Prelude.{
  ℕ, zero, suc, ◌+◌, ◌-◌, ◌*◌, ◌/◌, ◌%◌, ◌≤◌, ◌<◌, String, ◌≡◌, refl, sym, ap, ◌∙◌, ◌≢◌, ◌↔◌, ◌⊎◌,
  inl, inr, Bool, true, false, not, ◌&&◌, ◌||◌, Option, none, some, List, [], ◌∷◌, ◌++◌, map,
  reverse, arith, ◌==◌, eq_iff, eq_refl, ltb, leb, eqb, if◌then◌else◌, Bool-cases, Option-cases,
  or_default, or_else, and_then, map?, is_some, length, get_elem?, filter, find, any, All, Any,
  length-append, length-map, length-reverse, ltb→lt, lt→ltb, leb→le, eqb→eq, eqb_refl, tests, min,
  max,
}
use tropek.Js.Map.{
  contains, IsDistinct, Map, keys, get, set, set_all, from_entries, find_last, get-set,
  get-from_entries, contains-keys-set, keys-set-IsDistinct, contains-keys,
}
use tropek.Js.Unique.{
  unique_from, unique_by, unique, unique_by-IsDistinct, contains-unique_by, find-unique_by,
  All-unique_by, Any-of_contains, contains_of-Any,
}
use tropek.Js.Text.{◌+++◌, decimal}
use tropek.Js.MultiMap.{
  push_at, non_empty, more, more_nil, more-more, get-push_at, values, values-push_at-perm,
}
use tropek.Registry.Types.{NodeInfo, TreeNode, leaf, branch, Nodes, nil, cons, info}

module _ (to_lower : String → String) (includes : String → String → Bool) where
  -- `nameMatch`, for `lower` the search text in lower case
  unfoldable pub name_match : String → NodeInfo → Bool
  name_match lower i = includes (to_lower i.name) lower || elim i.display_name [
    | none ↦ false
    | some display_name ↦ includes (to_lower display_name) lower
  ]

  -- What is pushed of a node whose children are an array, given the children that are left.
  unfoldable pub keep_branch : Bool → NodeInfo → Nodes → Nodes → Nodes → Nodes
  keep_branch true i ts filtered acc = cons (branch i ts) acc
  keep_branch false i ts nil acc = acc
  keep_branch false i ts (cons f fs) acc = cons (branch i (cons f fs)) acc

  unfoldable pub keep_leaf : Bool → NodeInfo → Nodes → Nodes
  keep_leaf true i acc = cons (leaf i) acc
  keep_leaf false i acc = acc

  -- The fold over the nodes. The source appends; here the rest of the list follows.
  unfoldable mutual
    pub filter_node : String → TreeNode → Nodes → Nodes
    filter_node lower (leaf i) acc = keep_leaf (name_match lower i) i acc
    filter_node lower (branch i ts) acc =
        keep_branch (name_match lower i) i ts (filter_nodes lower ts) acc

    pub filter_nodes : String → Nodes → Nodes
    filter_nodes lower nil = nil
    filter_nodes lower (cons t ts) = filter_node lower t (filter_nodes lower ts)

  unfoldable pub filter_tree : Nodes → String → Nodes
  unfolding filter_node filter_nodes keep_leaf keep_branch name_match
  filter_tree nodes search = if search == "" then nodes else filter_nodes (to_lower search) nodes

  -- The node or some node below it matches.
  unfoldable mutual
    pub has_match : String → TreeNode → Bool
    has_match lower (leaf i) = name_match lower i
    has_match lower (branch i ts) = name_match lower i || has_match_below lower ts

    pub has_match_below : String → Nodes → Bool
    has_match_below lower nil = false
    has_match_below lower (cons t ts) = has_match lower t || has_match_below lower ts

  -- How many nodes match.
  unfoldable mutual
    pub matches : String → TreeNode → ℕ
    matches lower (leaf i) = if name_match lower i then 1 else 0
    matches lower (branch i ts) = (if name_match lower i then 1 else 0) + matches_below lower ts

    pub matches_below : String → Nodes → ℕ
    matches_below lower nil = 0
    matches_below lower (cons t ts) = matches lower t + matches_below lower ts
