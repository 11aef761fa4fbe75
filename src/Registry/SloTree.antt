-- ===== src/Registry/SloTree.antt =====
-- `buildSloTree`, `buildSloSections` and `buildDatasourceTree` of useRegistryTree.ts.
pub mod Datasources
pub mod Sections
pub mod Grouping
use tropek.Prelude.{
  ℕ, zero, suc, ◌+◌, ◌-◌, ◌*◌, ◌/◌, ◌%◌, ◌≤◌, ◌<◌, String, ◌≡◌, refl, sym, ap, ◌∙◌, ◌≢◌, ◌↔◌, ◌⊎◌,
  inl, inr, Bool, true, false, not, ◌&&◌, ◌||◌, Option, none, some, List, [], ◌∷◌, ◌++◌, map,
  reverse, arith, ◌==◌, eq_iff, eq_refl, ltb, leb, eqb, if◌then◌else◌, Bool-cases, Option-cases,
  or_default, or_else, and_then, map?, is_some, length, get_elem?, filter, find, any, All, Any,
  length-append, length-map, length-reverse, ltb→lt, lt→ltb, leb→le, eqb→eq, eqb_refl, tests, min,
  max,
}
use tropek.Js.Map.{
  contains, IsDistinct, Map, keys, get, set, set_all, from_entries, find_last, get-set,
  get-from_entries, contains-keys-set, keys-set-IsDistinct, contains-keys,
}
use tropek.Js.Unique.{
  unique_from, unique_by, unique, unique_by-IsDistinct, contains-unique_by, find-unique_by,
  All-unique_by, Any-of_contains, contains_of-Any,
}
use tropek.Js.Text.{◌+++◌, decimal}
use tropek.Js.MultiMap.{
  push_at, non_empty, more, more_nil, more-more, get-push_at, values, values-push_at-perm,
}
use tropek.Registry.Types.{
  MinSlo, MinSli, MinDs, MinBinding, SloGroup, NodeType, NodeInfo, TreeNode, leaf, branch, Nodes,
  to_nodes, plain,
}

-- `new Map(xs.map(x => [x.name, x]))`
abbrev pub slos_by_name : List MinSlo → Map MinSlo
slos_by_name slos = from_entries (map (λ s. (s.name, s)) slos)

abbrev pub slis_by_name : List MinSli → Map MinSli
slis_by_name slis = from_entries (map (λ s. (s.name, s)) slis)

abbrev pub datasources_by_name : List MinDs → Map MinDs
datasources_by_name datasources = from_entries (map (λ d. (d.name, d)) datasources)

-- `sli?.indicators ? Object.keys(sli.indicators).length : 0`
unfoldable pub indicator_count : Option MinSli → ℕ
indicator_count none = 0
indicator_count (some sli) = elim sli.indicators [ none ↦ 0 | some indicators ↦ length indicators ]

-- `indicatorCount > 0 ? `${indicatorCount}` : undefined`
unfoldable pub count_badge : ℕ → Option String
unfolding decimal
count_badge n = if ltb 0 n then some (decimal n) else none

-- The badge of the same node in `buildSloSections`.
unfoldable pub indicators_badge : ℕ → Option String
unfolding decimal
indicators_badge n = some (decimal n +++ " indicators")

abbrev pub version_badge : ℕ → String
version_badge version = "v" +++ decimal version

unfoldable pub datasource_leaf : Map MinDs → String → TreeNode
datasource_leaf ds_by_name ds_name =
    leaf (record (plain ("ds:" +++ ds_name) ds_name NodeType.datasource) {
      display_name = and_then (get ds_by_name ds_name) (λ d. d.display_name);
    })

-- The datasources that the bindings give the SLO, each once.
unfoldable pub bound_datasources : List MinBinding → String → List String
unfolding unique_by
bound_datasources bindings slo_name =
    unique (map (λ b. b.data_source_name) (filter (λ b. b.slo_name == slo_name) bindings))

-- The name of the SLO's SLI, where an empty text counts as absent.
unfoldable pub sli_of : MinSlo → Option String
sli_of slo = elim slo.sli_name [
  | none ↦ none
  | some sli_name ↦ if sli_name == "" then none else some sli_name
]

-- The SLI node that stands between the SLO and its datasources, if the SLO names an SLI.
unfoldable pub with_sli : Map MinSli → Option String → List TreeNode → List TreeNode
unfolding indicator_count count_badge
with_sli sli_by_name none ds_children = ds_children
with_sli sli_by_name (some sli_name) ds_children =
    let sli = get sli_by_name sli_name in
    branch
      (record (plain ("sli:" +++ sli_name) sli_name NodeType.sli) {
        display_name = and_then sli (λ s. s.display_name);
        badge = count_badge (indicator_count sli);
      })
      (to_nodes ds_children)
    ∷ []

unfoldable pub slo_node : Map MinSli → Map MinDs → List MinBinding → MinSlo → TreeNode
unfolding datasource_leaf bound_datasources sli_of with_sli decimal
slo_node sli_by_name ds_by_name bindings slo =
    branch
      (record (plain ("slo:" +++ slo.name) slo.name NodeType.slo) {
        display_name = slo.display_name;
        badge = some (version_badge slo.version);
      })
      (to_nodes (
        with_sli sli_by_name (sli_of slo)
          (map (datasource_leaf ds_by_name) (bound_datasources bindings slo.name))))

-- The copies of these in `buildSloSections`.
unfoldable pub section_datasource_leaf : Map MinDs → String → TreeNode
section_datasource_leaf ds_by_name ds_name =
    leaf (record (plain ("ds:" +++ ds_name) ds_name NodeType.datasource) {
      display_name = and_then (get ds_by_name ds_name) (λ d. d.display_name);
    })

unfoldable pub section_bound_datasources : List MinBinding → String → List String
unfolding unique_by
section_bound_datasources bindings slo_name =
    unique (map (λ b. b.data_source_name) (filter (λ b. b.slo_name == slo_name) bindings))

unfoldable pub section_sli_of : MinSlo → Option String
section_sli_of slo = elim slo.sli_name [
  | none ↦ none
  | some sli_name ↦ if sli_name == "" then none else some sli_name
]

unfoldable pub section_with_sli : Map MinSli → Option String → List TreeNode → List TreeNode
unfolding indicator_count indicators_badge
section_with_sli sli_by_name none ds_children = ds_children
section_with_sli sli_by_name (some sli_name) ds_children =
    let sli = get sli_by_name sli_name in
    branch
      (record (plain ("sli:" +++ sli_name) sli_name NodeType.sli) {
        display_name = and_then sli (λ s. s.display_name);
        badge = indicators_badge (indicator_count sli);
      })
      (to_nodes ds_children)
    ∷ []

unfoldable pub section_slo_node : Map MinSli → Map MinDs → List MinBinding → MinSlo → TreeNode
unfolding section_datasource_leaf section_bound_datasources section_sli_of section_with_sli decimal
section_slo_node sli_by_name ds_by_name bindings slo =
    branch
      (record (plain ("slo:" +++ slo.name) slo.name NodeType.slo) {
        display_name = slo.display_name;
        badge = some (version_badge slo.version);
      })
      (to_nodes (
        section_with_sli sli_by_name (section_sli_of slo)
          (map (section_datasource_leaf ds_by_name) (section_bound_datasources bindings slo.name))))

unfoldable pub build_slo_tree :
    List MinSlo → List MinSli → List MinDs → List MinBinding → List TreeNode
unfolding slo_node from_entries get
build_slo_tree slos slis datasources bindings =
    map (slo_node (slis_by_name slis) (datasources_by_name datasources) bindings)
      (filter (λ s. s.active) slos)

pub record SloSections : Type 0 where
  pub standard : List TreeNode
  pub templates : List TreeNode
  pub group_nodes : List TreeNode

abbrev pub is_standard : MinSlo → Bool
is_standard s = or_default s.kind "standard" == "standard"

abbrev pub is_template : MinSlo → Bool
is_template s = elim s.kind [ none ↦ false | some kind ↦ kind == "template" ]

unfoldable pub template_leaf : List SloGroup → MinSlo → TreeNode
unfolding decimal
template_leaf groups slo =
    let count = length (filter (λ g. g.template_slo_name == slo.name) groups) in
    leaf (record (plain ("template:" +++ slo.name) slo.name NodeType.template) {
      display_name = slo.display_name;
      badge = some (version_badge slo.version);
      subtitle = some (decimal count +++ " group" +++ (if eqb count 1 then "" else "s"));
    })

unfoldable pub group_leaf : SloGroup → TreeNode
unfolding decimal
group_leaf g = leaf (record (plain ("slo-group:" +++ g.name) g.name NodeType.slo_group) {
  display_name = g.display_name;
  badge = some (decimal g.generated_slo_count +++ " SLOs");
  subtitle = some ("via " +++ g.template_slo_name);
})

unfoldable pub build_slo_sections :
    List MinSlo → List MinSli → List MinDs → List MinBinding → List SloGroup → SloSections
unfolding section_slo_node template_leaf group_leaf from_entries get
build_slo_sections slos slis datasources bindings groups =
    let active_slos = filter (λ s. s.active) slos in
    record {
      standard =
          map (section_slo_node (slis_by_name slis) (datasources_by_name datasources) bindings)
            (filter is_standard active_slos);
      templates = map (template_leaf groups) (filter is_template active_slos);
      group_nodes = map group_leaf (filter (λ g. g.active) groups);
    }

-- `sloByName.get(sloName)?.sliName ?? '__none__'`
unfoldable pub sli_key : Map MinSlo → String → String
sli_key slo_by_name slo_name =
    or_default (and_then (get slo_by_name slo_name) (λ s. s.sli_name)) "__none__"

-- The loop that groups the bound SLOs by the SLI of their definition.
unfoldable pub group_by_sli : Map MinSlo → Map (List String) → List String → Map (List String)
unfolding sli_key push_at
group_by_sli slo_by_name m [] = m
group_by_sli slo_by_name m (slo_name ∷ slo_names) =
    group_by_sli slo_by_name (push_at m (sli_key slo_by_name slo_name) slo_name) slo_names

unfoldable pub slo_leaf : Map MinSlo → String → TreeNode
unfolding decimal
slo_leaf slo_by_name slo_name =
    let slo = get slo_by_name slo_name in
    leaf (record (plain ("slo:" +++ slo_name) slo_name NodeType.slo) {
      display_name = and_then slo (λ s. s.display_name);
      badge = map? (λ s. version_badge s.version) slo;
    })

unfoldable pub sli_branch : Map MinSli → Map MinSlo → String × List String → TreeNode
unfolding indicator_count count_badge slo_leaf
sli_branch sli_by_name slo_by_name (sli_name, slo_names) =
    let sli = get sli_by_name sli_name in
    branch
      (record (plain ("sli:" +++ sli_name) sli_name NodeType.sli) {
        display_name = and_then sli (λ s. s.display_name);
        badge = count_badge (indicator_count sli);
      })
      (to_nodes (map (slo_leaf slo_by_name) slo_names))

-- The SLOs bound to the datasource, each once.
unfoldable pub bound_slos : List MinBinding → String → List String
unfolding unique_by
bound_slos bindings ds_name =
    unique (map (λ b. b.slo_name) (filter (λ b. b.data_source_name == ds_name) bindings))

unfoldable pub datasource_node : List MinSli → List MinSlo → List MinBinding → MinDs → TreeNode
unfolding group_by_sli sli_branch bound_slos slo_leaf from_entries get
datasource_node slis slos bindings ds =
    let slo_by_name = slos_by_name slos in
    let sli_to_slos = group_by_sli slo_by_name [] (bound_slos bindings ds.name) in
    branch
      (record (plain ("ds:" +++ ds.name) ds.name NodeType.datasource) {
        display_name = ds.display_name;
        badge = some ("[" +++ ds.adapter_type +++ "]");
      })
      (to_nodes (
        map (sli_branch (slis_by_name slis) slo_by_name)
          (filter (λ e. not (e.0 == "__none__")) sli_to_slos)
        ++ map (slo_leaf slo_by_name) (or_default (get sli_to_slos "__none__") [])))

unfoldable pub build_datasource_tree :
    List MinDs → List MinSli → List MinSlo → List MinBinding → List TreeNode
unfolding datasource_node
build_datasource_tree datasources slis slos bindings =
    map (datasource_node slis slos bindings) datasources
