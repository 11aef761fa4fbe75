-- ===== src/Registry/AssetTree.antt =====
-- `buildAssetTree` of useRegistryTree.ts. A group's node holds the nodes of its subgroups, and the
-- recursion has no test for cycles: `fuel` bounds its depth, and `none` means that it is deeper.
pub mod Termination
pub mod Members
use tropek.Prelude.{
  ℕ, zero, suc, ◌+◌, ◌-◌, ◌*◌, ◌/◌, ◌%◌, ◌≤◌, ◌<◌, String, ◌≡◌, refl, sym, ap, ◌∙◌, ◌≢◌, ◌↔◌, ◌⊎◌,
  inl, inr, Bool, true, false, not, ◌&&◌, ◌||◌, Option, none, some, List, [], ◌∷◌, ◌++◌, map,
  reverse, arith, ◌==◌, eq_iff, eq_refl, ltb, leb, eqb, if◌then◌else◌, Bool-cases, Option-cases,
  or_default, or_else, and_then, map?, is_some, length, get_elem?, filter, find, any, All, Any,
  length-append, length-map, length-reverse, ltb→lt, lt→ltb, leb→le, eqb→eq, eqb_refl, tests, min,
  max,
}
use tropek.Js.Map.{
  contains, IsDistinct, Map, keys, get, set, set_all, from_entries, find_last, get-set,
  get-from_entries, contains-keys-set, keys-set-IsDistinct, contains-keys,
}
use tropek.Js.Unique.{
  unique_from, unique_by, unique, unique_by-IsDistinct, contains-unique_by, find-unique_by,
  All-unique_by, Any-of_contains, contains_of-Any,
}
use tropek.Js.Text.{◌+++◌, decimal}
use tropek.Js.MultiMap.{
  push_at, non_empty, more, more_nil, more-more, get-push_at, values, values-push_at-perm,
}
use tropek.Registry.Types.{
  MinSlo, MinSli, MinBinding, MinMember, MinSubgroup, MinGroup, NodeType, NodeInfo, TreeNode, leaf,
  branch, to_nodes, plain,
}
use tropek.Registry.Bindings.{binding_key}
use tropek.Registry.SloTree.{
  indicator_count, count_badge, version_badge, sli_of, slos_by_name, slis_by_name,
}

-- What the inner function reads of the arguments of `buildAssetTree`.
pub record Tables : Type 0 where
  pub slo_by_name : Map MinSlo
  pub sli_by_name : Map MinSli
  pub group_by_name : Map MinGroup
  pub group_bindings_map : Map (List MinBinding)
  pub asset_bindings_map : Map (List MinBinding)

-- `children.length > 0 ? children : undefined`
unfoldable pub with_children : NodeInfo → List TreeNode → TreeNode
with_children i [] = leaf i
with_children i (t ∷ ts) = branch i (to_nodes (t ∷ ts))

-- The groups that the subgroups of a group name; a name that is unknown is left out.
unfoldable pub resolve : Map MinGroup → List MinSubgroup → List MinGroup
resolve groups [] = []
resolve groups (sg ∷ sgs) =
    let rest = resolve groups sgs in
    elim (get groups sg.group_name) [ none ↦ rest | some g ↦ g ∷ rest ]

abbrev pub subgroups_of : Tables → MinGroup → List MinGroup
subgroups_of c g = resolve c.group_by_name (or_default g.subgroups [])

-- The bindings of the asset, then those of its group that the asset does not override.
unfoldable pub merge_member : List MinBinding → List MinBinding → List MinBinding
unfolding binding_key
merge_member asset_bindings group_bindings =
    asset_bindings
    ++ filter (λ b. not (contains (binding_key b) (map binding_key asset_bindings))) group_bindings

unfoldable pub binding_datasource : String → String → MinBinding → TreeNode
binding_datasource group_name asset_name b =
    leaf
      (record (plain ("binding-ds:" +++ asset_name +++ ":" +++ b.data_source_name)
        b.data_source_name NodeType.datasource) { group_name = some group_name })

unfoldable pub binding_leaf : Map MinSli → String → String → Option String → TreeNode → TreeNode
unfolding indicator_count count_badge
binding_leaf slis group_name asset_name none ds_node = ds_node
binding_leaf slis group_name asset_name (some sli_name) ds_node =
    let sli = get slis sli_name in
    branch
      (record (plain ("binding-sli:" +++ asset_name +++ ":" +++ sli_name) sli_name NodeType.sli) {
        display_name = and_then sli (λ s. s.display_name);
        badge = count_badge (indicator_count sli);
        group_name = some group_name;
      })
      (to_nodes (ds_node ∷ []))

unfoldable pub binding_node : Tables → String → String → MinBinding → TreeNode
unfolding binding_leaf binding_datasource sli_of decimal
binding_node c group_name asset_name b =
    let slo = get c.slo_by_name b.slo_name in
    branch
      (record (plain ("binding-slo:" +++ asset_name +++ ":" +++ b.slo_name) b.slo_name
        NodeType.slo) {
          display_name = and_then slo (λ s. s.display_name);
          badge = map? (λ s. version_badge s.version) slo;
          group_name = some group_name;
        })
      (to_nodes (
        binding_leaf c.sli_by_name group_name asset_name (and_then slo sli_of)
          (binding_datasource group_name asset_name b)
        ∷ []))

unfoldable pub member_node : Tables → String → List MinBinding → MinMember → TreeNode
unfolding with_children merge_member binding_node
member_node c group_name group_bindings m =
    with_children
      (record (plain ("asset:" +++ m.asset_name) m.asset_name NodeType.asset) {
        group_name = some group_name;
        asset_type_name = m.asset_type_name;
      })
      (map (binding_node c group_name m.asset_name)
        (merge_member (or_default (get c.asset_bindings_map m.asset_name) []) group_bindings))

unfoldable pub assemble : Tables → MinGroup → List TreeNode → TreeNode
unfolding with_children member_node decimal
assemble c g subgroup_children =
    let members = or_default g.members [] in
    with_children
      (record (plain ("group:" +++ g.name) g.name NodeType.group) {
        display_name = g.display_name;
        badge = if ltb 0 (length members) then some (decimal (length members)) else none;
      })
      (subgroup_children
        ++ map (member_node c g.name (or_default (get c.group_bindings_map g.name) [])) members)

-- Running a partial function over a list, in order.
unfoldable pub traverse {ℓ κ} :
    {A : Type ℓ} {B : Type κ} → (A → Option B) → List A → Option (List B)
traverse f [] = some []
traverse f (x ∷ xs) = and_then (f x) (λ y. map? (λ ys. y ∷ ys) (traverse f xs))

unfoldable pub build_group_node : ℕ → Tables → MinGroup → Option TreeNode
unfolding traverse resolve assemble
build_group_node zero c g = none
build_group_node (suc fuel) c g =
    map? (assemble c g) (traverse (build_group_node fuel c) (subgroups_of c g))

unfoldable pub build_asset_tree :
    ℕ
    → List MinGroup
    → List MinGroup
    → Map (List MinBinding)
    → Map (List MinBinding)
    → Option (List MinSlo)
    → Option (List MinSli)
    → Option (List TreeNode)
unfolding build_group_node
build_asset_tree fuel top_level_groups all_groups group_bindings_map asset_bindings_map slos slis =
    traverse
      (build_group_node fuel (record {
        slo_by_name = slos_by_name (or_default slos []);
        sli_by_name = slis_by_name (or_default slis []);
        group_by_name = from_entries (map (λ g. (g.name, g)) all_groups);
        group_bindings_map = group_bindings_map;
        asset_bindings_map = asset_bindings_map;
      }))
      top_level_groups
