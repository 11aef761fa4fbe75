-- ===== src/Registry/AssetTree/Termination.antt =====
-- When the recursion of `buildAssetTree` ends.
use tropek.Prelude.{
  ℕ, zero, suc, ◌≤◌, ◌<◌, ◌≡◌, refl, inl, inr, Option, none, some, List, [], ◌∷◌, arith, and_then,
  map?, All, Any,
}
use tropek.Registry.Types.{MinGroup, TreeNode}
use tropek.Registry.AssetTree.{Tables, subgroups_of, traverse, assemble, build_group_node}

traverse_total {ℓ κ} :
    {A : Type ℓ} {B : Type κ} (f : A → Option B) (xs : List A)
    → All (λ x. (y : B) × (f x ≡ some y)) xs
    → (ys : List B) × (traverse f xs ≡ some ys)
unfolding traverse
traverse_total f [] h = ([], refl)
traverse_total f (x ∷ xs) ((y, e), h) = let (ys, es) = traverse_total f xs h in (y ∷ ys, rw (e, es))

and_then_none :
    {A B : Type 0} (o : Option A) (f : A → B → B) {r : Option B}
    → r ≡ none
    → and_then o (λ y. map? (f y) r) ≡ none
and_then_none none f e = refl
and_then_none (some y) f e = rw e

traverse_none :
    {A B : Type 0} (f : A → Option B) (xs : List A)
    → Any (λ x. f x ≡ none) xs
    → traverse f xs ≡ none
unfolding traverse
traverse_none f [] h = elim h [ ]
traverse_none f (x ∷ xs) (inl e) = rw e
traverse_none f (x ∷ xs) (inr h) = and_then_none (f x) (λ y ys. y ∷ ys) (traverse_none f xs h)

module _ (c : Tables) (rank : MinGroup → ℕ)
    (falls : (g : MinGroup) → All (λ sub. rank sub < rank g) (subgroups_of c g)) where
  build-All :
      (fuel : ℕ) (gs : List MinGroup) (r : ℕ)
      → ((g : MinGroup) → rank g < fuel → (t : TreeNode) × (build_group_node fuel c g ≡ some t))
      → r ≤ fuel
      → All (λ sub. rank sub < r) gs
      → All (λ g. (t : TreeNode) × (build_group_node fuel c g ≡ some t)) gs
  build-All fuel [] r ih le h = tt
  build-All fuel (g ∷ gs) r ih le (lt, h) = (ih g (omega arith), build-All fuel gs r ih le h)

  -- Where the groups are ranked so that each subgroup lies below its group, the recursion ends:
  -- fuel above the rank of a group builds its node.
  pub build_group_node_total :
      (fuel : ℕ) (g : MinGroup)
      → rank g < fuel
      → (t : TreeNode) × (build_group_node fuel c g ≡ some t)
  unfolding build_group_node
  build_group_node_total zero g h = elim h [ ]
  build_group_node_total (suc fuel) g h =
      let (ts, e) = traverse_total (build_group_node fuel c) (subgroups_of c g) (
        build-All fuel (subgroups_of c g) (rank g) (build_group_node_total fuel) (omega arith)
          (falls g)) in
      (assemble c g ts, rw e)

-- A group from which a cycle of subgroups can be followed, one after another, without end.
module _ (c : Tables) (IsCyclic : MinGroup → Type 0)
    (follows : (g : MinGroup) → IsCyclic g → Any IsCyclic (subgroups_of c g)) where
  Any-none :
      (fuel : ℕ) (gs : List MinGroup)
      → ((g : MinGroup) → IsCyclic g → build_group_node fuel c g ≡ none)
      → Any IsCyclic gs
      → Any (λ g. build_group_node fuel c g ≡ none) gs
  Any-none fuel [] ih h = elim h [ ]
  Any-none fuel (g ∷ gs) ih (inl h) = inl (ih g h)
  Any-none fuel (g ∷ gs) ih (inr h) = inr (Any-none fuel gs ih h)

  -- On a cycle of subgroups the recursion does not end: no fuel builds the node.
  pub build_group_node_diverges :
      (fuel : ℕ) (g : MinGroup) → IsCyclic g → build_group_node fuel c g ≡ none
  unfolding build_group_node
  build_group_node_diverges zero g h = refl
  build_group_node_diverges (suc fuel) g h = rw (
      traverse_none (build_group_node fuel c) (subgroups_of c g)
        (Any-none fuel (subgroups_of c g) (build_group_node_diverges fuel) (follows g h)))
