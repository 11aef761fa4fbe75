-- ===== src/Registry/Bindings.antt =====
-- `mergeBindings` and `buildSloGroupMap` of useRegistryTree.ts.
pub mod Merge
pub mod Groups
use tropek.Prelude.{
  ℕ, zero, suc, ◌+◌, ◌-◌, ◌*◌, ◌/◌, ◌%◌, ◌≤◌, ◌<◌, String, ◌≡◌, refl, sym, ap, ◌∙◌, ◌≢◌, ◌↔◌, ◌⊎◌,
  inl, inr, Bool, true, false, not, ◌&&◌, ◌||◌, Option, none, some, List, [], ◌∷◌, ◌++◌, map,
  reverse, arith, ◌==◌, eq_iff, eq_refl, ltb, leb, eqb, if◌then◌else◌, Bool-cases, Option-cases,
  or_default, or_else, and_then, map?, is_some, length, get_elem?, filter, find, any, All, Any,
  length-append, length-map, length-reverse, ltb→lt, lt→ltb, leb→le, eqb→eq, eqb_refl, tests, min,
  max,
}
use tropek.Js.Map.{
  contains, IsDistinct, Map, keys, get, set, set_all, from_entries, find_last, get-set,
  get-from_entries, contains-keys-set, keys-set-IsDistinct, contains-keys,
}
use tropek.Js.Unique.{
  unique_from, unique_by, unique, unique_by-IsDistinct, contains-unique_by, find-unique_by,
}
use tropek.Js.Text.{◌+++◌, decimal}
use tropek.Js.MultiMap.{
  push_at, non_empty, more, more_nil, more-more, get-push_at, values, values-push_at-perm,
}
use tropek.Registry.Types.{MinSlo, MinBinding, MinGroupAssignment}

-- The key that both deduplications use.
unfoldable pub binding_key : MinBinding → String
binding_key b = b.slo_name +++ "|" +++ b.data_source_name

-- `slo.tags?.slo_group`, where an empty text counts as absent.
unfoldable pub slo_group_tag : MinSlo → Option String
slo_group_tag slo = elim (and_then slo.tags (λ tags. get tags "slo_group")) [
  | none ↦ none
  | some group_name ↦ if group_name == "" then none else some group_name
]

unfoldable pub add_under : Map (List String) → Option String → String → Map (List String)
unfolding push_at
add_under m none name = m
add_under m (some group_name) name = push_at m group_name name

-- One round of the loop of `buildSloGroupMap`.
unfoldable pub add_to_group : Map (List String) → MinSlo → Map (List String)
add_to_group m slo = add_under m (slo_group_tag slo) slo.name

unfoldable pub add_all_to_group : Map (List String) → List MinSlo → Map (List String)
add_all_to_group m [] = m
add_all_to_group m (slo ∷ slos) = add_all_to_group (add_to_group m slo) slos

unfoldable pub build_slo_group_map : List MinSlo → Map (List String)
unfolding add_all_to_group add_to_group add_under slo_group_tag
build_slo_group_map slos = add_all_to_group [] slos

-- The bindings of an assignment of an SLO group: one for each SLO of the group, or one that names
-- the group itself where the map does not know it.
unfoldable pub expand_assignment : Map (List String) → MinGroupAssignment → List MinBinding
expand_assignment slo_group_map ga =
    map (λ slo_name. record { slo_name = slo_name; data_source_name = ga.data_source_name })
      (or_default (get slo_group_map ga.slo_group_name) (ga.slo_group_name ∷ []))

unfoldable pub expand_assignments : Map (List String) → List MinGroupAssignment → List MinBinding
unfolding expand_assignment
expand_assignments m [] = []
expand_assignments m (ga ∷ gas) = expand_assignment m ga ++ expand_assignments m gas

abbrev pub copy_binding : MinBinding → MinBinding
copy_binding a = record { slo_name = a.slo_name; data_source_name = a.data_source_name }

pub record Merged : Type 0 where
  pub all_bindings : List MinBinding
  pub group_bindings_map : Map (List MinBinding)
  pub asset_bindings_map : Map (List MinBinding)

-- The variables of the two loops.
pub record MergeState : Type 0 where
  pub flat : List MinBinding
  pub by_group : Map (List MinBinding)
  pub by_asset : Map (List MinBinding)

-- The first loop, at index `i`.
unfoldable pub merge_groups : List String → ℕ → List (List MinBinding) → MergeState → MergeState
merge_groups [] i assignments s = s
merge_groups (name ∷ names) i assignments s =
    let bindings = map copy_binding (or_default (get_elem? assignments i) []) in
    merge_groups names (suc i) assignments
      (record s { flat = s.flat ++ bindings; by_group = set s.by_group name bindings })

-- The bindings of the asset at index `i`: its own first, then those through SLO groups.
unfoldable pub asset_bindings :
    ℕ
    → List (List MinBinding)
    → List (List MinGroupAssignment)
    → Map (List String)
    → List MinBinding
unfolding expand_assignments
asset_bindings i direct groups m =
    map copy_binding (or_default (get_elem? direct i) [])
    ++ expand_assignments m (or_default (get_elem? groups i) [])

-- The second loop, at index `i`.
unfoldable pub merge_assets :
    List String
    → ℕ
    → List (List MinBinding)
    → List (List MinGroupAssignment)
    → Map (List String)
    → MergeState
    → MergeState
unfolding asset_bindings
merge_assets [] i direct groups m s = s
merge_assets (name ∷ names) i direct groups m s =
    let combined = asset_bindings i direct groups m in
    merge_assets names (suc i) direct groups m
      (record s { flat = s.flat ++ combined; by_asset = set s.by_asset name combined })

unfoldable pub merge_bindings :
    (group_names asset_names : List String) (group_assignments direct : List (List MinBinding))
    (asset_group_assignments : List (List MinGroupAssignment)) (slo_group_map : Map (List String))
    → Merged
unfolding merge_groups merge_assets binding_key unique_by
merge_bindings group_names asset_names group_assignments direct asset_group_assignments
      slo_group_map =
    let s = merge_assets asset_names 0 direct asset_group_assignments slo_group_map (
      merge_groups group_names 0 group_assignments
        (record { flat = []; by_group = []; by_asset = [] })) in
    record {
      all_bindings = unique_by binding_key s.flat;
      group_bindings_map = s.by_group;
      asset_bindings_map = s.by_asset;
    }
