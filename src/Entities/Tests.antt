-- ===== src/Entities/Tests.antt =====
-- The theorems about the entities at concrete inputs.
use tropek.Prelude.{
  ℕ, ◌≤◌, ◌<◌, inl, inr, none, List, [], ◌∷◌, arith, ◌==◌, Bool-cases, length, All,
}
use tropek.Entities.Assets.{AssetGroup, AssetGroupTree, AssetGroupSubgroup}
use tropek.Entities.Members.{found_subgroups, add_found}
use tropek.Entities.Members.Counts.{IsCounted, collect-count_leaf_members}

abbrev leaf : AssetGroup ℕ ℕ
leaf = record {
  id = "1";
  name = "web";
  display_name = none;
  description = none;
  color = none;
  members =
      record {
        asset_id = "7";
        asset_name = "host";
        asset_display_name = none;
        asset_type_name = "vm";
        weight = 1;
      }
      ∷ [];
  subgroups = [];
  created_at = 0;
  updated_at = 0;
}

abbrev flat : AssetGroupTree ℕ ℕ
flat = record { top_level = leaf ∷ []; all_groups = leaf ∷ [] }

-- A group of a tree in which no group but the one above has subgroups.
abbrev height : AssetGroup ℕ ℕ → ℕ
height g = length g.subgroups

found-flat :
    (n : ℕ) (sgs : List (AssetGroupSubgroup ℕ))
    → length sgs ≤ n
    → All (λ sub. height sub < n) (found_subgroups flat sgs)
unfolding found_subgroups add_found
found-flat n [] h = tt
found-flat n (sg ∷ sgs) h = elim (Bool-cases ("1" == sg.group_id)) [
  | inl e ↦ rw e (omega (arith, h), found-flat n sgs (omega (arith, h)))
  | inr e ↦ rw e (found-flat n sgs (omega (arith, h)))
]

flat-falls :
    (g : AssetGroup ℕ ℕ) → All (λ sub. height sub < height g) (found_subgroups flat g.subgroups)
flat-falls g = found-flat (length g.subgroups) g.subgroups (omega arith)

collect-count_leaf_members_example : IsCounted flat 1 leaf
collect-count_leaf_members_example =
    collect-count_leaf_members flat height flat-falls 1 leaf (ground arith)
