-- ===== src/Registry/Bindings/Groups.antt =====
-- What `buildSloGroupMap` returns, and what `mergeBindings` files under each group and asset.
use tropek.Prelude.{
  ℕ, suc, String, ◌≡◌, refl, sym, ap, inl, inr, Bool, false, Option, none, some, List, [], ◌∷◌, map,
  arith, ◌==◌, if◌then◌else◌, Bool-cases, or_default, or_else, get_elem?, filter,
}
use tropek.Js.Map.{Map, get, get-set}
use tropek.Js.MultiMap.{non_empty, more, more_nil, more-more, get-push_at}
use tropek.Registry.Types.{MinSlo, MinBinding, MinGroupAssignment}
use tropek.Registry.Bindings.Merge.{asset_row, asset_bindings-asset_row}
use tropek.Registry.Bindings.{
  slo_group_tag, add_under, add_to_group, add_all_to_group, build_slo_group_map, merge_groups,
  merge_assets, merge_bindings, asset_bindings, copy_binding, MergeState,
}

abbrev tag_is : Option String → String → Bool
tag_is none g = false
tag_is (some t) g = t == g

-- The names of the SLOs with the group's tag, in the order of the list.
abbrev pub tagged : String → List MinSlo → List String
tagged g slos = map (λ slo. slo.name) (filter (λ slo. tag_is (slo_group_tag slo) g) slos)

get-add_under :
    (m : Map (List String)) (o : Option String) (name g : String)
    → get (add_under m o name) g ≡ more (get m g) (if tag_is o g then name ∷ [] else [])
unfolding add_under
get-add_under m none name g = sym (more_nil (get m g))
get-add_under m (some t) name g = get-push_at m t g name

get-add_all_to_group :
    (m : Map (List String)) (slos : List MinSlo) (g : String)
    → get (add_all_to_group m slos) g ≡ more (get m g) (tagged g slos)
unfolding add_all_to_group add_to_group
get-add_all_to_group m [] g = sym (more_nil (get m g))
get-add_all_to_group m (slo ∷ slos) g =
    rw (get-add_all_to_group (add_under m (slo_group_tag slo) slo.name) slos g) (
      rw (get-add_under m (slo_group_tag slo) slo.name g)
        (elim (Bool-cases (tag_is (slo_group_tag slo) g)) [
          | inl e ↦ rw e (more-more (get m g) slo.name (tagged g slos))
          | inr e ↦ rw (e, more_nil (get m g))
        ]))

-- The map of `buildSloGroupMap` has, for each group, the names of the SLOs that carry the group's
-- tag, in the order of the list, and no entry for a group that no SLO names.
pub get-build_slo_group_map :
    (slos : List MinSlo) (g : String) → get (build_slo_group_map slos) g ≡ non_empty (tagged g slos)
unfolding build_slo_group_map get
get-build_slo_group_map slos g = get-add_all_to_group [] slos g

-- The entry of the last group of that name.
abbrev pub last_group_row :
    String → List String → ℕ → List (List MinBinding) → Option (List MinBinding)
last_group_row g [] i assignments = none
last_group_row g (name ∷ names) i assignments =
    or_else (last_group_row g names (suc i) assignments)
      (if name == g then some (or_default (get_elem? assignments i) []) else none)

abbrev pub last_asset_row :
    String
    → List String
    → ℕ
    → List (List MinBinding)
    → List (List MinGroupAssignment)
    → Map (List String)
    → Option (List MinBinding)
last_asset_row a [] i direct groups m = none
last_asset_row a (name ∷ names) i direct groups m =
    or_else (last_asset_row a names (suc i) direct groups m)
      (if name == a then some (asset_row i direct groups m) else none)

or_else_none : (o : Option (List MinBinding)) → or_else o none ≡ o
or_else_none none = refl
or_else_none (some l) = refl

copy_all : (bs : List MinBinding) → map copy_binding bs ≡ bs
copy_all [] = refl
copy_all (b ∷ bs) = ap (◌∷◌ b) (copy_all bs)

get-merge_groups :
    (names : List String) (i : ℕ) (assignments : List (List MinBinding)) (s : MergeState)
    (g : String)
    → get (merge_groups names i assignments s).by_group g
      ≡ or_else (last_group_row g names i assignments) (get s.by_group g)
unfolding merge_groups
get-merge_groups [] i assignments s g = refl
get-merge_groups (name ∷ names) i assignments s g =
    let row = map copy_binding (or_default (get_elem? assignments i) []) in
    rw (get-merge_groups names (suc i) assignments _ g)
      (rw (get-set s.by_group name g row, copy_all) (ground (arith)))

by_group-merge_assets :
    (names : List String) (i : ℕ) (direct : List (List MinBinding))
    (groups : List (List MinGroupAssignment)) (m : Map (List String)) (s : MergeState)
    → (merge_assets names i direct groups m s).by_group ≡ s.by_group
unfolding merge_assets
by_group-merge_assets [] i direct groups m s = refl
by_group-merge_assets (name ∷ names) i direct groups m s =
    by_group-merge_assets names (suc i) direct groups m _

by_asset-merge_groups :
    (names : List String) (i : ℕ) (assignments : List (List MinBinding)) (s : MergeState)
    → (merge_groups names i assignments s).by_asset ≡ s.by_asset
unfolding merge_groups
by_asset-merge_groups [] i assignments s = refl
by_asset-merge_groups (name ∷ names) i assignments s =
    by_asset-merge_groups names (suc i) assignments _

get-merge_assets :
    (names : List String) (i : ℕ) (direct : List (List MinBinding))
    (groups : List (List MinGroupAssignment)) (m : Map (List String)) (s : MergeState) (a : String)
    → get (merge_assets names i direct groups m s).by_asset a
      ≡ or_else (last_asset_row a names i direct groups m) (get s.by_asset a)
unfolding merge_assets
get-merge_assets [] i direct groups m s a = refl
get-merge_assets (name ∷ names) i direct groups m s a =
    rw (get-merge_assets names (suc i) direct groups m _ a) (
      rw
        (
          get-set s.by_asset name a (asset_bindings i direct groups m),
          asset_bindings-asset_row i direct groups m,
        )
        (ground (arith)))

-- `groupBindingsMap` has a group's own row and `assetBindingsMap` an asset's direct bindings
-- followed by one for each SLO of each of its SLO groups, or for the group's own name where no SLO has
-- its tag; of rows with one name the last stands, and a name with no
-- row has no entry.
pub merge_bindings-get :
    (group_names asset_names : List String) (group_assignments direct : List (List MinBinding))
    (asset_group_assignments : List (List MinGroupAssignment)) (m : Map (List String)) (k : String)
    → let merged =
        merge_bindings group_names asset_names group_assignments direct asset_group_assignments m in
      (get merged.group_bindings_map k ≡ last_group_row k group_names 0 group_assignments)
      × (get merged.asset_bindings_map k
          ≡ last_asset_row k asset_names 0 direct asset_group_assignments m)
unfolding merge_bindings get
merge_bindings-get group_names asset_names group_assignments direct asset_group_assignments m k = (
  rw (by_group-merge_assets, get-merge_groups) (or_else_none _),
  rw (get-merge_assets, by_asset-merge_groups) (or_else_none _),
)
