-- ===== src/Entities/Members/Counts.antt =====
-- How the count of a group and the list of its assets compare: features/assets/utils.ts and
-- features/navigator/components/treeUtils.ts.
use tropek.Prelude.{
  sym, ap, ◌∙◌, ◌||◌, ◌==◌, Option, none, find, ℕ, zero, suc, ◌+◌, ◌≤◌, ◌<◌, String, ◌≡◌, refl,
  some, List, [], ◌∷◌, ◌++◌, map, arith, length, All, length-append, length-map,
}
use tropek.Js.Map.{contains, IsDistinct}
use tropek.Js.Unique.{unique, unique-IsDistinct, contains-unique}
use tropek.Registry.AssetTree.Members.{contains-append}
use tropek.Registry.AssetTree.{traverse}
use tropek.Entities.Assets.{AssetGroup, AssetGroupTree, AssetGroupSubgroup}
use tropek.Entities.Members.{
  add_found, concat, sum, found_subgroups, collect_group_asset_names, count_leaf_members,
}

module _ {N D : Type 0} (tree : AssetGroupTree N D) where
  abbrev pub asset_names : AssetGroup N D → List String
  asset_names group = map (λ m. m.asset_name) group.members

  abbrev subgroup_of : AssetGroupSubgroup N → Option (AssetGroup N D)
  subgroup_of sg = find (λ g. g.id == sg.group_id) tree.all_groups

  -- The assets below a list of subgroups, as often as they stand there: those of a subgroup, with
  -- those below it, before those of the next; of a subgroup that the tree does not have, none.
  pub data Below : List (AssetGroupSubgroup N) → List String → Type 0 where
    ended : Below [] []
    missing :
        (sg : AssetGroupSubgroup N) (sgs : List (AssetGroupSubgroup N)) (later : List String)
        → subgroup_of sg ≡ none
        → Below sgs later
        → Below (sg ∷ sgs) later
    found :
        (sg : AssetGroupSubgroup N) (sgs : List (AssetGroupSubgroup N)) (group : AssetGroup N D)
        (inner later : List String)
        → subgroup_of sg ≡ some group
        → Below group.subgroups inner
        → Below sgs later
        → Below (sg ∷ sgs) ((asset_names group ++ inner) ++ later)

  -- Both recursions end: the count is the number of the group's members and of all below it, and
  -- the names are theirs, each once.
  abbrev pub IsCounted : ℕ → AssetGroup N D → Type 0
  IsCounted fuel group =
      (names inner : List String) × (count : ℕ) × (collect_group_asset_names fuel tree group
        ≡ some names)
      × (count_leaf_members fuel tree group ≡ some count)
      × Below group.subgroups inner
      × (count ≡ length (asset_names group ++ inner))
      × IsDistinct names
      × ((k : String) → contains k names ≡ contains k (asset_names group ++ inner))

  abbrev IsSummed : ℕ → List (AssetGroup N D) → List (AssetGroupSubgroup N) → Type 0
  IsSummed fuel groups sgs =
      (parts : List (List String)) × (inner : List String) × (counts : List ℕ) × (traverse
          (collect_group_asset_names fuel tree) groups
        ≡ some parts)
      × (traverse (count_leaf_members fuel tree) groups ≡ some counts)
      × Below sgs inner
      × (sum counts ≡ length inner)
      × ((k : String) → contains k (concat parts) ≡ contains k inner)

  IsSummed-add_found :
      (fuel : ℕ) (sg : AssetGroupSubgroup N) (sgs : List (AssetGroupSubgroup N))
      (o : Option (AssetGroup N D)) (groups : List (AssetGroup N D))
      → subgroup_of sg ≡ o
      → All (IsCounted fuel) (add_found o groups)
      → IsSummed fuel groups sgs
      → IsSummed fuel (add_found o groups) (sg ∷ sgs)
  unfolding add_found traverse
  IsSummed-add_found fuel sg sgs none groups e h (parts, inner, counts, es, cs, below, size, same) =
      (parts, inner, counts, es, cs, Below.missing sg sgs inner e below, size, same)
  IsSummed-add_found fuel sg sgs (some group) groups e
        ((names, inside, count, n, c, under, number, distinct, has), h)
        (parts, inner, counts, es, cs, below, size, same) =
      let mine = asset_names group ++ inside in
      (
        names ∷ parts,
        mine ++ inner,
        count ∷ counts,
        rw (n, es) refl,
        rw (c, cs) refl,
        Below.found sg sgs group inside inner e under below,
        omega (arith, number, size, length-append mine inner),
        λ k.
            contains-append names (concat parts) k
            ∙ cc (has k, same k)
            ∙ sym (contains-append mine inner k),
      )

  All-found :
      (fuel : ℕ) (o : Option (AssetGroup N D)) (groups : List (AssetGroup N D))
      → All (IsCounted fuel) (add_found o groups)
      → All (IsCounted fuel) groups
  unfolding add_found
  All-found fuel none groups h = h
  All-found fuel (some group) groups (h, hs) = hs

  found_subgroups-IsSummed :
      (fuel : ℕ) (sgs : List (AssetGroupSubgroup N))
      → All (IsCounted fuel) (found_subgroups tree sgs)
      → IsSummed fuel (found_subgroups tree sgs) sgs
  unfolding found_subgroups traverse
  found_subgroups-IsSummed fuel [] h = ([], [], [], refl, refl, Below.ended, refl, λ k. refl)
  found_subgroups-IsSummed fuel (sg ∷ sgs) h =
      IsSummed-add_found fuel sg sgs (subgroup_of sg) (found_subgroups tree sgs) refl h (
        found_subgroups-IsSummed fuel sgs
          (All-found fuel (subgroup_of sg) (found_subgroups tree sgs) h))

  step-IsCounted :
      (fuel : ℕ) (group : AssetGroup N D)
      → All (IsCounted fuel) (found_subgroups tree group.subgroups)
      → IsCounted (suc fuel) group
  unfolding collect_group_asset_names count_leaf_members
  step-IsCounted fuel group h =
      let (parts, inner, counts, es, cs, below, size, same) =
        found_subgroups-IsSummed fuel group.subgroups h in
      let direct = asset_names group in
      (
        unique (direct ++ concat parts),
        inner,
        length group.members + sum counts,
        rw es refl,
        rw cs refl,
        below,
        omega
            (arith, size, length-append direct inner, length-map group.members (λ m. m.asset_name)),
        unique-IsDistinct (direct ++ concat parts),
        λ k.
            contains-unique (direct ++ concat parts) k
            ∙ contains-append direct (concat parts) k
            ∙ ap (contains k direct ||◌) (same k)
            ∙ sym (contains-append direct inner k),
      )

  module _ (rank : AssetGroup N D → ℕ)
      (falls : (g : AssetGroup N D)
        → All (λ sub. rank sub < rank g) (found_subgroups tree g.subgroups)) where
    below-All :
        (fuel r : ℕ) (groups : List (AssetGroup N D))
        → ((g : AssetGroup N D) → rank g < fuel → IsCounted fuel g)
        → r ≤ fuel
        → All (λ sub. rank sub < r) groups
        → All (IsCounted fuel) groups
    below-All fuel r [] ih le h = tt
    below-All fuel r (g ∷ groups) ih le (lt, h) =
        (ih g (omega arith), below-All fuel r groups ih le h)

    -- Where the groups are ranked so that each subgroup lies below its group, fuel above the rank
    -- of a group ends both recursions: the count is the number of the group's members and of all that
    -- are below it, as often as they stand there, and the names are the names of those, each once.
    pub collect-count_leaf_members :
        (fuel : ℕ) (group : AssetGroup N D) → rank group < fuel → IsCounted fuel group
    collect-count_leaf_members zero group h = elim h [ ]
    collect-count_leaf_members (suc fuel) group h = step-IsCounted fuel group (
        below-All fuel (rank group) _ (collect-count_leaf_members fuel) (omega arith) (falls group))
