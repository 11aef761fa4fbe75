-- ===== src/Entities/Members.antt =====
-- The assets of a group with its subgroups: collectGroupAssetNames of ui/src/features/assets/utils.ts
-- and countLeafMembers of ui/src/features/navigator/components/treeUtils.ts. A recursion spends one
-- unit of fuel for each level of subgroups; without enough there is no answer.
pub mod Counts
use tropek.Prelude.{
  ℕ, zero, suc, ◌+◌, ◌-◌, ◌*◌, ◌/◌, ◌%◌, ◌≤◌, ◌<◌, String, ◌≡◌, refl, sym, ap, ◌∙◌, ◌≢◌, ◌↔◌, ◌⊎◌,
  inl, inr, Bool, true, false, not, ◌&&◌, ◌||◌, Option, none, some, List, [], ◌∷◌, ◌++◌, map,
  reverse, arith, ◌==◌, eq_iff, eq_refl, ltb, leb, eqb, if◌then◌else◌, Bool-cases, Bool_ext,
  Option-cases, or_default, or_else, and_then, map?, is_some, length, get_elem?, filter, find, any,
  map_from, drop_at_from, All, Any, length-append, length-map, length-reverse,
  get_elem?-append_left, get_elem?-append_length, get_elem?-reverse, get_elem?-map, All-append,
  ltb→lt, lt→ltb, leb→le, eqb→eq, eqb_refl, tests, min, max,
}
use tropek.Js.Map.{
  contains, IsDistinct, Map, keys, get, set, set_all, from_entries, find_last, get-set,
  get-from_entries, contains-keys-set, keys-set-IsDistinct, contains-keys,
}
use tropek.Js.Unique.{
  unique_from, unique_by, unique, unique_by-IsDistinct, contains-unique_by, find-unique_by,
  All-unique_by, Any-of_contains, contains_of-Any,
}
use tropek.Js.Text.{◌+++◌, decimal}
use tropek.Js.MultiMap.{
  push_at, non_empty, more, more_nil, more-more, get-push_at, values, values-push_at-perm,
}
use tropek.Registry.AssetTree.{traverse}
use tropek.Entities.Assets.{AssetGroup, AssetGroupTree, AssetGroupSubgroup}

abbrev pub concat {ℓ} : {A : Type ℓ} → List (List A) → List A
concat [] = []
concat (xs ∷ xss) = xs ++ concat xss

abbrev pub sum : List ℕ → ℕ
sum [] = 0
sum (n ∷ ns) = n + sum ns

module _ {N D : Type 0} where
  unfoldable pub add_found : Option (AssetGroup N D) → List (AssetGroup N D) → List (AssetGroup N D)
  add_found none groups = groups
  add_found (some group) groups = group ∷ groups

  -- The subgroups that the tree has.
  unfoldable pub found_subgroups :
      AssetGroupTree N D → List (AssetGroupSubgroup N) → List (AssetGroup N D)
  unfolding add_found
  found_subgroups tree [] = []
  found_subgroups tree (sg ∷ sgs) =
      add_found (find (λ g. g.id == sg.group_id) tree.all_groups) (found_subgroups tree sgs)

  unfoldable pub collect_group_asset_names :
      ℕ → AssetGroupTree N D → AssetGroup N D → Option (List String)
  unfolding found_subgroups traverse unique_by
  collect_group_asset_names zero tree group = none
  collect_group_asset_names (suc fuel) tree group =
      map? (λ parts. unique (map (λ m. m.asset_name) group.members ++ concat parts))
        (traverse (collect_group_asset_names fuel tree) (found_subgroups tree group.subgroups))

  unfoldable pub count_leaf_members : ℕ → AssetGroupTree N D → AssetGroup N D → Option ℕ
  unfolding found_subgroups traverse
  count_leaf_members zero tree group = none
  count_leaf_members (suc fuel) tree group =
      map? (λ counts. length group.members + sum counts)
        (traverse (count_leaf_members fuel tree) (found_subgroups tree group.subgroups))
