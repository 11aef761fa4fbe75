-- ===== src/Registry/Filter/Laws.antt =====
-- Which nodes `filterTree` keeps.
use tropek.Prelude.{
  ◌+◌, String, ◌≡◌, refl, ap, ◌∙◌, ◌≢◌, inl, inr, Bool, true, false, not, ◌&&◌, List, [], ◌∷◌,
  arith, ◌==◌, eq_iff, if◌then◌else◌, Bool-cases,
}
use tropek.Registry.Types.{NodeInfo, TreeNode, leaf, branch, Nodes, nil, cons, info}
use tropek.Registry.Filter.{
  name_match, keep_branch, keep_leaf, filter_node, filter_nodes, filter_tree, has_match,
  has_match_below, matches, matches_below,
}

module _ (to_lower : String → String) (includes : String → String → Bool) where
  mutual
    unfolding matches_below matches filter_nodes filter_node keep_leaf keep_branch

    matches-filter_node :
        (lower : String) (t : TreeNode) (acc : Nodes)
        → matches_below to_lower includes lower (filter_node to_lower includes lower t acc)
          ≡ matches to_lower includes lower t + matches_below to_lower includes lower acc
    matches-filter_node lower (leaf i) acc = ground arith
    matches-filter_node lower (branch i ts) acc = ground (arith, matches-filter_nodes lower ts)

    matches-filter_nodes :
        (lower : String) (ts : Nodes)
        → matches_below to_lower includes lower (filter_nodes to_lower includes lower ts)
          ≡ matches_below to_lower includes lower ts
    matches-filter_nodes lower nil = refl
    matches-filter_nodes lower (cons t ts) = omega (
      arith,
      matches-filter_node lower t (filter_nodes to_lower includes lower ts),
      matches-filter_nodes lower ts,
    )

  filter_kept_branch :
      (lower : String) (i : NodeInfo) (ts fs acc : Nodes)
      → name_match to_lower includes lower i ≡ false
      → filter_nodes to_lower includes lower fs ≡ fs
      → filter_nodes to_lower includes lower (keep_branch to_lower includes false i ts fs acc)
        ≡ keep_branch to_lower includes false i ts fs (filter_nodes to_lower includes lower acc)
  unfolding filter_nodes filter_node keep_branch
  filter_kept_branch lower i ts nil acc e h = refl
  filter_kept_branch lower i ts (cons f fs) acc e h = rw (e, h)

  filter_branch_again :
      (lower : String) (i : NodeInfo) (ts acc : Nodes)
      → filter_nodes to_lower includes lower (filter_nodes to_lower includes lower ts)
        ≡ filter_nodes to_lower includes lower ts
      → filter_nodes to_lower includes lower (filter_node to_lower includes lower (branch i ts) acc)
        ≡ filter_node to_lower includes lower
            (branch i ts)
            (filter_nodes to_lower includes lower acc)
  unfolding filter_node
  filter_branch_again lower i ts acc h = elim (Bool-cases (name_match to_lower includes lower i)) [
    | inl e ↦ rw e (unfold filter_nodes filter_node keep_branch in rw e)
    | inr e ↦ rw e (filter_kept_branch lower i ts (filter_nodes to_lower includes lower ts) acc e h)
  ]

  mutual
    unfolding filter_nodes filter_node keep_leaf keep_branch

    filter_nodes-filter_node :
        (lower : String) (t : TreeNode) (acc : Nodes)
        → filter_nodes to_lower includes lower (filter_node to_lower includes lower t acc)
          ≡ filter_node to_lower includes lower t (filter_nodes to_lower includes lower acc)
    filter_nodes-filter_node lower (leaf i) acc =
        elim (Bool-cases (name_match to_lower includes lower i)) [
          | inl e ↦ rw e (rw e)
          | inr e ↦ rw e
        ]
    filter_nodes-filter_node lower (branch i ts) acc =
        filter_branch_again lower i ts acc (filter_nodes_idempotent lower ts)

    filter_nodes_idempotent :
        (lower : String) (ts : Nodes)
        → filter_nodes to_lower includes lower (filter_nodes to_lower includes lower ts)
          ≡ filter_nodes to_lower includes lower ts
    filter_nodes_idempotent lower nil = refl
    filter_nodes_idempotent lower (cons t ts) =
        filter_nodes-filter_node lower t (filter_nodes to_lower includes lower ts)
        ∙ ap (filter_node to_lower includes lower t) (filter_nodes_idempotent lower ts)

  abbrev no_node : Nodes → Bool
  no_node nil = true
  no_node (cons t ts) = false

  unfoldable pub infos_from : Nodes → List NodeInfo
  infos_from nil = []
  infos_from (cons t ts) = info t ∷ infos_from ts

  -- The top-level nodes with a match.
  unfoldable pub infos_matching : String → Nodes → List NodeInfo
  infos_matching lower nil = []
  infos_matching lower (cons t ts) =
      if has_match to_lower includes lower t
      then info t ∷ infos_matching lower ts
      else infos_matching lower ts

  mutual
    unfolding filter_nodes filter_node keep_leaf keep_branch has_match has_match_below

    no_node-filter_node :
        (lower : String) (t : TreeNode) (acc : Nodes)
        → no_node (filter_node to_lower includes lower t acc)
          ≡ (not (has_match to_lower includes lower t) && no_node acc)
    no_node-filter_node lower (leaf i) acc = ground arith
    no_node-filter_node lower (branch i ts) acc = ground (arith, no_node-filter_nodes lower ts)

    no_node-filter_nodes :
        (lower : String) (ts : Nodes)
        → no_node (filter_nodes to_lower includes lower ts)
          ≡ not (has_match_below to_lower includes lower ts)
    no_node-filter_nodes lower nil = refl
    no_node-filter_nodes lower (cons t ts) = ground (
      arith,
      no_node-filter_node lower t (filter_nodes to_lower includes lower ts),
      no_node-filter_nodes lower ts,
    )

  infos_from-filter_node :
      (lower : String) (t : TreeNode) (acc : Nodes)
      → infos_from (filter_node to_lower includes lower t acc)
        ≡ (if has_match to_lower includes lower t then info t ∷ infos_from acc else infos_from acc)
  unfolding filter_node keep_leaf keep_branch has_match infos_from
  infos_from-filter_node lower (leaf i) acc = ground arith
  infos_from-filter_node lower (branch i ts) acc = ground (arith, no_node-filter_nodes lower ts)

  infos_from-filter_nodes :
      (lower : String) (ts : Nodes)
      → infos_from (filter_nodes to_lower includes lower ts) ≡ infos_matching lower ts
  unfolding filter_nodes infos_from infos_matching
  infos_from-filter_nodes lower nil = refl
  infos_from-filter_nodes lower (cons t ts) = rw (
    infos_from-filter_node lower t (filter_nodes to_lower includes lower ts),
    infos_from-filter_nodes lower ts,
  )

  -- `filterTree` keeps every matching node, at whatever depth: the result has as many.
  matches-filter_tree :
      (nodes : Nodes) (search : String)
      → matches_below to_lower includes
          (to_lower search)
          (filter_tree to_lower includes nodes search)
        ≡ matches_below to_lower includes (to_lower search) nodes
  unfolding filter_tree
  matches-filter_tree nodes search = elim (Bool-cases (search == "")) [
    | inl e ↦ rw e
    | inr e ↦ rw e (matches-filter_nodes (to_lower search) nodes)
  ]

  -- Filtering the result by the same text changes nothing more.
  pub filter_tree_idempotent :
      (nodes : Nodes) (search : String)
      → filter_tree to_lower includes (filter_tree to_lower includes nodes search) search
        ≡ filter_tree to_lower includes nodes search
  unfolding filter_tree
  filter_tree_idempotent nodes search = elim (Bool-cases (search == "")) [
    | inl e ↦ rw e
    | inr e ↦ rw e (filter_nodes_idempotent (to_lower search) nodes)
  ]

  -- For a text that is not empty, the top-level nodes of the result are those of the input that
  -- match or have a match below them, in their order.
  pub infos_from-filter_tree :
      (nodes : Nodes) (search : String)
      → search ≢ ""
      → infos_from (filter_tree to_lower includes nodes search)
        ≡ infos_matching (to_lower search) nodes
  unfolding filter_tree
  infos_from-filter_tree nodes search h =
      ground (arith, eq_iff search "", infos_from-filter_nodes (to_lower search) nodes)
