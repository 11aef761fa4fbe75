-- ===== src/Registry/Tests.antt =====
-- The theorems about the registry at concrete inputs.
use tropek.Prelude.{
  ℕ, ◌≤◌, ◌<◌, String, ◌≡◌, refl, ◌↔◌, inl, Bool, true, false, ◌&&◌, none, some, List, [], ◌∷◌, map,
  arith, ◌==◌, eq_iff, if◌then◌else◌, or_default, or_else, length, filter, find, any, All, Any,
}
use tropek.Js.Map.{contains, IsDistinct, get}
use tropek.Registry.Types.{
  MinSlo, MinSli, MinDs, MinBinding, MinSubgroup, MinGroup, TreeNode, Nodes, nil, cons, leaf,
  branch, NodeType, plain,
}
use tropek.Registry.Names.{names_in, is_slo, is_datasource, erase_sli_badges}
use tropek.Registry.Bindings.{asset_bindings, binding_key, merge_bindings}
use tropek.Registry.Bindings.Merge.{merge_bindings-member, every_row}
use tropek.Registry.Bindings.Groups.{merge_bindings-get, last_group_row, last_asset_row}
use tropek.Registry.SloTree.{
  build_slo_tree, bound_datasources, build_slo_sections, is_standard, datasource_node,
}
use tropek.Registry.SloTree.Datasources.{build_slo_tree-datasources}
use tropek.Registry.SloTree.Sections.{standard-build_slo_tree}
use tropek.Registry.SloTree.Grouping.{HasBound, datasource_node-slos}
use tropek.Registry.AssetTree.{Tables, subgroups_of, resolve, build_group_node, merge_member}
use tropek.Registry.AssetTree.Members.{merge_member_lem}
use tropek.Registry.AssetTree.Termination.{build_group_node_total, build_group_node_diverges}
use tropek.Registry.Filter.{filter_tree}
use tropek.Registry.Filter.Laws.{infos_from-filter_tree, infos_from, infos_matching}

abbrev on_d : MinBinding
on_d = record { slo_name = "s"; data_source_name = "d" }

abbrev on_e : MinBinding
on_e = record { slo_name = "s"; data_source_name = "e" }

merge_bindings-member_example :
    Any
      (λ x. x ≡ on_d)
      (merge_bindings
        ("g" ∷ [])
        ("a" ∷ [])
        ((on_d ∷ []) ∷ [])
        ((on_d ∷ []) ∷ [])
        ([] ∷ [])
        []).all_bindings
    ↔ Any
        (λ x. x ≡ on_d)
        (every_row ("g" ∷ []) ("a" ∷ []) ((on_d ∷ []) ∷ []) ((on_d ∷ []) ∷ []) ([] ∷ []) [])
unfolding asset_bindings
merge_bindings-member_example =
    merge_bindings-member ("g" ∷ []) ("a" ∷ []) ((on_d ∷ []) ∷ []) ((on_d ∷ []) ∷ []) ([] ∷ []) []
      on_d
      (
        ((λ e. ground (arith, e), tt), (λ e. ground (arith, e), tt)),
        (((λ e. ground (arith, e), tt), (λ e. ground (arith, e), tt)), tt),
      )
      ((λ e. ground (arith, e), tt), (λ e. ground (arith, e), tt))

abbrev slo_s : MinSlo
slo_s = record {
  name = "s";
  display_name = none;
  version = 3;
  active = true;
  sli_name = some "i";
  sli_version = none;
  kind = none;
  tags = some (("slo_group", "g") ∷ []);
}

abbrev sli_i : MinSli
sli_i = record {
  name = "i";
  display_name = none;
  adapter_type = "prometheus";
  active = true;
  indicators = some (("latency", "query") ∷ []);
}

abbrev ds_d : MinDs
ds_d = record { name = "d"; display_name = none; adapter_type = "prometheus" }

merge_bindings-get_example :
    (get
        (merge_bindings
          ("g" ∷ [])
          ("a" ∷ [])
          ((on_d ∷ []) ∷ [])
          ((on_e ∷ []) ∷ [])
          ([] ∷ [])
          []).group_bindings_map
        "g"
      ≡ last_group_row "g" ("g" ∷ []) 0 ((on_d ∷ []) ∷ []))
    × (get
          (merge_bindings
            ("g" ∷ [])
            ("a" ∷ [])
            ((on_d ∷ []) ∷ [])
            ((on_e ∷ []) ∷ [])
            ([] ∷ [])
            []).asset_bindings_map
          "g"
        ≡ last_asset_row "g" ("a" ∷ []) 0 ((on_e ∷ []) ∷ []) ([] ∷ []) [])
merge_bindings-get_example =
    merge_bindings-get ("g" ∷ []) ("a" ∷ []) ((on_d ∷ []) ∷ []) ((on_e ∷ []) ∷ []) ([] ∷ []) [] "g"

build_slo_tree-datasources_example :
    (map (names_in is_datasource) (build_slo_tree (slo_s ∷ []) (sli_i ∷ []) (ds_d ∷ []) (on_d ∷ []))
      ≡ map (λ s. bound_datasources (on_d ∷ []) s.name) (filter (λ s. s.active) (slo_s ∷ [])))
    × IsDistinct (bound_datasources (on_d ∷ []) "s")
    × (contains "d" (bound_datasources (on_d ∷ []) "s")
        ≡ any (λ b. b.slo_name == "s" && b.data_source_name == "d") (on_d ∷ []))
build_slo_tree-datasources_example =
    build_slo_tree-datasources (slo_s ∷ []) (sli_i ∷ []) (ds_d ∷ []) (on_d ∷ []) "s" "d"

standard-build_slo_tree_example :
    map erase_sli_badges
      (build_slo_sections (slo_s ∷ []) (sli_i ∷ []) (ds_d ∷ []) (on_d ∷ []) []).standard
    ≡ map erase_sli_badges
        (build_slo_tree (filter is_standard (slo_s ∷ [])) (sli_i ∷ []) (ds_d ∷ []) (on_d ∷ []))
standard-build_slo_tree_example =
    standard-build_slo_tree (slo_s ∷ []) (sli_i ∷ []) (ds_d ∷ []) (on_d ∷ []) []

datasource_node-slos_example :
    HasBound
      (on_d ∷ [])
      "d"
      (names_in is_slo (datasource_node (sli_i ∷ []) (slo_s ∷ []) (on_d ∷ []) ds_d))
      "s"
datasource_node-slos_example = datasource_node-slos (sli_i ∷ []) (slo_s ∷ []) (on_d ∷ []) ds_d "s"

merge_member_lem_example :
    (find (λ b. binding_key b == "s|d") (merge_member (on_e ∷ []) (on_d ∷ on_e ∷ []))
      ≡ or_else
          (find (λ b. binding_key b == "s|d") (on_e ∷ []))
          (find (λ b. binding_key b == "s|d") (on_d ∷ on_e ∷ [])))
    × IsDistinct (map binding_key (merge_member (on_e ∷ []) (on_d ∷ on_e ∷ [])))
unfolding contains binding_key
merge_member_lem_example =
    merge_member_lem (on_e ∷ []) (on_d ∷ on_e ∷ []) "s|d" (refl, tt) (refl, (refl, tt))

abbrev inner : MinGroup
inner = record { name = "inner"; display_name = none; members = none; subgroups = none }

abbrev outer : MinGroup
outer = record {
  name = "outer";
  display_name = none;
  members = none;
  subgroups = some ((record { group_id = "1"; group_name = "inner" }) ∷ []);
}

abbrev tables : Tables
tables = record {
  slo_by_name = [];
  sli_by_name = [];
  group_by_name = ("inner", inner) ∷ [];
  group_bindings_map = [];
  asset_bindings_map = [];
}

-- The number of the subgroups that a group names.
abbrev named : MinGroup → ℕ
named g = length (or_default g.subgroups [])

with_found :
    (b : Bool) (rest : List MinGroup) (n : ℕ)
    → 0 < n
    → All (λ sub. named sub < n) rest
    → All
        (λ sub. named sub < n)
        (elim (if b then some inner else none) [ none ↦ rest | some g ↦ g ∷ rest ])
with_found true rest n pos h = (pos, h)
with_found false rest n pos h = h

resolve_falls :
    (subs : List MinSubgroup) (n : ℕ)
    → length subs ≤ n
    → All (λ sub. named sub < n) (resolve tables.group_by_name subs)
unfolding resolve get
resolve_falls [] n le = tt
resolve_falls (s ∷ subs) n le =
    with_found ("inner" == s.group_name) _ n (omega arith) (resolve_falls subs n (omega arith))

named_falls : (g : MinGroup) → All (λ sub. named sub < named g) (subgroups_of tables g)
named_falls g = resolve_falls (or_default g.subgroups []) (named g) (omega arith)

build_group_node_total_example : (t : TreeNode) × (build_group_node 2 tables outer ≡ some t)
build_group_node_total_example =
    build_group_node_total tables named named_falls 2 outer (ground arith)

abbrev loop : MinGroup
loop = record {
  name = "loop";
  display_name = none;
  members = none;
  subgroups = some ((record { group_id = "1"; group_name = "loop" }) ∷ []);
}

abbrev looping : Tables
looping = record tables { group_by_name = ("loop", loop) ∷ [] }

loop_follows : (g : MinGroup) → g ≡ loop → Any (λ h. h ≡ loop) (subgroups_of looping g)
unfolding get resolve
loop_follows g e = rw e (inl refl)

build_group_node_diverges_example : build_group_node 100 looping loop ≡ none
build_group_node_diverges_example =
    build_group_node_diverges looping (λ h. h ≡ loop) loop_follows 100 loop refl

-- Stand-ins for `toLowerCase` and `includes`.
abbrev as_is : String → String
as_is s = s

abbrev same_text : String → String → Bool
same_text s t = s == t

abbrev nodes : Nodes
nodes =
    cons
      (branch (plain "slo:a" "a" NodeType.slo)
        (cons (leaf (plain "ds:b" "b" NodeType.datasource)) nil))
      (cons (leaf (plain "ds:c" "c" NodeType.datasource)) nil)

infos_from-filter_tree_example :
    infos_from as_is same_text (filter_tree as_is same_text nodes "b")
    ≡ infos_matching as_is same_text "b" nodes
infos_from-filter_tree_example =
    infos_from-filter_tree as_is same_text nodes "b" (λ e. ground (arith, eq_iff "b" "", e))
