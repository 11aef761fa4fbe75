-- ===== src/Registry/Bindings/Merge.antt =====
-- The merged list that `mergeBindings` returns.
use mathlib.Core.List.{append-nil, append_assoc}
use tropek.Prelude.{
  ℕ, suc, String, ◌≡◌, refl, sym, ap, ◌∙◌, ◌↔◌, inl, inr, true, List, [], ◌∷◌, ◌++◌, map, ◌==◌,
  eq_iff, eq_refl, or_default, get_elem?, All, Any,
}
use tropek.Js.Map.{IsDistinct, Map, get}
use tropek.Js.Unique.{
  unique_by, unique_by-IsDistinct, contains-unique_by, All-unique_by, Any-of_contains,
  contains_of-Any,
}
use tropek.Js.Text.{◌+++◌}
use text.Mathlib.TextLemmas.{nil-append, cons-append}
use tropek.Js.Text.Join.{IsFreeOf, join_injective}
use tropek.Registry.Types.{MinBinding, MinGroupAssignment}
use tropek.Registry.Bindings.{
  binding_key, copy_binding, merge_groups, expand_assignment, expand_assignments, merge_assets,
  merge_bindings, asset_bindings, MergeState,
}

-- The bindings of the groups, read off the rows with no loop state.
abbrev pub group_rows : List String → ℕ → List (List MinBinding) → List MinBinding
group_rows [] i assignments = []
group_rows (name ∷ names) i assignments =
    or_default (get_elem? assignments i) [] ++ group_rows names (suc i) assignments

copy_all : (bs : List MinBinding) → map copy_binding bs ≡ bs
copy_all [] = refl
copy_all (b ∷ bs) = ap (◌∷◌ b) (copy_all bs)

-- What an SLO group stands for: its SLOs, and itself where no SLO has its tag.
abbrev pub members_of : Map (List String) → String → List String
members_of slo_group_map group_name = or_default (get slo_group_map group_name) (group_name ∷ [])

abbrev pub through_group : String → List String → List MinBinding
through_group data_source_name [] = []
through_group data_source_name (slo_name ∷ slo_names) =
    record { slo_name = slo_name; data_source_name = data_source_name }
    ∷ through_group data_source_name slo_names

abbrev pub through_groups : Map (List String) → List MinGroupAssignment → List MinBinding
through_groups m [] = []
through_groups m (ga ∷ gas) =
    through_group ga.data_source_name (members_of m ga.slo_group_name) ++ through_groups m gas

-- The bindings of the asset at an index: its own, then one for each SLO of each of its SLO groups.
abbrev pub asset_row :
    ℕ
    → List (List MinBinding)
    → List (List MinGroupAssignment)
    → Map (List String)
    → List MinBinding
asset_row i direct groups m =
    or_default (get_elem? direct i) [] ++ through_groups m (or_default (get_elem? groups i) [])

map-through_group :
    (data_source_name : String) (slo_names : List String)
    → map (λ n. record { slo_name = n; data_source_name = data_source_name }) slo_names
      ≡ through_group data_source_name slo_names
map-through_group d [] = refl
map-through_group d (n ∷ names) =
    ap (record { slo_name = n; data_source_name = d } ∷◌) (map-through_group d names)

expand_assignments-through_groups :
    (m : Map (List String)) (gas : List MinGroupAssignment)
    → expand_assignments m gas ≡ through_groups m gas
unfolding expand_assignments expand_assignment
expand_assignments-through_groups m [] = refl
expand_assignments-through_groups m (ga ∷ gas) = cc (
  map-through_group ga.data_source_name (members_of m ga.slo_group_name),
  expand_assignments-through_groups m gas,
)

pub asset_bindings-asset_row :
    (i : ℕ) (direct : List (List MinBinding)) (groups : List (List MinGroupAssignment))
    (m : Map (List String))
    → asset_bindings i direct groups m ≡ asset_row i direct groups m
unfolding asset_bindings
asset_bindings-asset_row i direct groups m = cc (
  copy_all (or_default (get_elem? direct i) []),
  expand_assignments-through_groups m (or_default (get_elem? groups i) []),
)

abbrev pub asset_rows :
    List String
    → ℕ
    → List (List MinBinding)
    → List (List MinGroupAssignment)
    → Map (List String)
    → List MinBinding
asset_rows [] i direct groups m = []
asset_rows (name ∷ names) i direct groups m =
    asset_row i direct groups m ++ asset_rows names (suc i) direct groups m

flat-merge_groups :
    (names : List String) (i : ℕ) (assignments : List (List MinBinding)) (s : MergeState)
    → (merge_groups names i assignments s).flat ≡ s.flat ++ group_rows names i assignments
unfolding merge_groups
flat-merge_groups [] i assignments s = rw append-nil
flat-merge_groups (name ∷ names) i assignments s =
    rw (flat-merge_groups names (suc i) assignments, copy_all, append_assoc)

flat-merge_assets :
    (names : List String) (i : ℕ) (direct : List (List MinBinding))
    (groups : List (List MinGroupAssignment)) (m : Map (List String)) (s : MergeState)
    → (merge_assets names i direct groups m s).flat ≡ s.flat ++ asset_rows names i direct groups m
unfolding merge_assets
flat-merge_assets [] i direct groups m s = rw append-nil
flat-merge_assets (name ∷ names) i direct groups m s =
    rw (flat-merge_assets names (suc i) direct groups m, asset_bindings-asset_row, append_assoc)

-- Neither name holds a bar. The forms accept lower-case letters, digits and hyphens only.
abbrev pub IsBarFree : MinBinding → Type 0
IsBarFree b = IsFreeOf b'|' b.slo_name × IsFreeOf b'|' b.data_source_name

bar_cons : (u : String) → "|" +++ u ≡ String.◌∷◌ "|" u
bar_cons u = cons-append "|" "" u ∙ ap (String.◌∷◌ "|") (nil-append u)

-- The key tells bindings apart whose SLO names hold no bar.
pub binding_key_injective :
    (a b : MinBinding) → IsBarFree a → IsBarFree b → binding_key a ≡ binding_key b → a ≡ b
unfolding binding_key
binding_key_injective a b ha hb e =
    let (slo, ds) =
      join_injective "|" a.slo_name b.slo_name a.data_source_name b.data_source_name ha.0 hb.0
        (rw (bar_cons a.data_source_name, bar_cons b.data_source_name) at e) in
    cc (slo, ds)

key_to_eq :
    (xs : List MinBinding) (b : MinBinding)
    → All IsBarFree xs
    → IsBarFree b
    → Any (λ x. (binding_key x == binding_key b) ≡ true) xs
    → Any (λ x. x ≡ b) xs
key_to_eq [] b hs hb h = elim h [ ]
key_to_eq (x ∷ xs) b hs hb (inl e) = inl (binding_key_injective x b hs.0 hb ((eq_iff _ _).0 e))
key_to_eq (x ∷ xs) b hs hb (inr h) = inr (key_to_eq xs b hs.1 hb h)

eq_to_key :
    (xs : List MinBinding) (b : MinBinding)
    → Any (λ x. x ≡ b) xs
    → Any (λ x. (binding_key x == binding_key b) ≡ true) xs
eq_to_key [] b h = elim h [ ]
eq_to_key (x ∷ xs) b (inl e) = inl (rw e (eq_refl (binding_key b)))
eq_to_key (x ∷ xs) b (inr h) = inr (eq_to_key xs b h)

member_unique_by :
    (xs : List MinBinding) (b : MinBinding)
    → All IsBarFree xs
    → IsBarFree b
    → Any (λ x. x ≡ b) (unique_by binding_key xs) ↔ Any (λ x. x ≡ b) xs
member_unique_by xs b hs hb = (
  λ h. key_to_eq xs b hs hb (
      Any-of_contains binding_key xs (binding_key b) (
        sym (contains-unique_by binding_key xs (binding_key b))
        ∙ contains_of-Any binding_key _ (binding_key b) (eq_to_key _ b h))),
  λ h. key_to_eq _ b (All-unique_by binding_key IsBarFree xs hs) hb (
      Any-of_contains binding_key _ (binding_key b) (
        contains-unique_by binding_key xs (binding_key b)
        ∙ contains_of-Any binding_key xs (binding_key b) (eq_to_key xs b h))),
)

module _ (group_names asset_names : List String) (group_assignments direct : List (List MinBinding))
    (asset_group_assignments : List (List MinGroupAssignment))
    (slo_group_map : Map (List String)) where
  -- Every binding of a group, then every binding of an asset.
  abbrev pub every_row : List MinBinding
  every_row =
      group_rows group_names 0 group_assignments
      ++ asset_rows asset_names 0 direct asset_group_assignments slo_group_map

  all_bindings_lem :
      (merge_bindings group_names asset_names group_assignments direct asset_group_assignments
        slo_group_map).all_bindings
      ≡ unique_by binding_key every_row
  unfolding merge_bindings
  all_bindings_lem = rw (flat-merge_assets, flat-merge_groups)

  -- `allBindings` holds no two bindings with one key, whatever the rows.
  merge_bindings-IsDistinct : IsDistinct (
      map binding_key
        (merge_bindings group_names asset_names group_assignments direct asset_group_assignments
          slo_group_map).all_bindings)
  merge_bindings-IsDistinct = rw all_bindings_lem (unique_by-IsDistinct binding_key every_row)

  -- Where the names hold no bar, a binding is in `allBindings` exactly when some group or some
  -- asset of the rows has it, directly or through an SLO group.
  pub merge_bindings-member :
      (b : MinBinding)
      → All IsBarFree every_row
      → IsBarFree b
      → Any
          (λ x. x ≡ b)
          (merge_bindings group_names asset_names group_assignments direct asset_group_assignments
            slo_group_map).all_bindings
        ↔ Any (λ x. x ≡ b) every_row
  merge_bindings-member b hs hb = rw all_bindings_lem (member_unique_by every_row b hs hb)
