-- ===== src/Registry/SloTree/Sections.antt =====
-- `buildSloSections` beside `buildSloTree`.
use tropek.Prelude.{String, ◌≡◌, refl, Bool, Option, none, some, List, [], ◌∷◌, map, arith, filter}
use tropek.Js.Map.{Map}
use tropek.Registry.Types.{MinSlo, MinSli, MinDs, MinBinding, SloGroup, TreeNode, to_nodes}
use tropek.Registry.Names.{erase_sli_badges, erase_all}
use tropek.Registry.SloTree.{
  section_slo_node, section_with_sli, section_sli_of, section_datasource_leaf,
  section_bound_datasources, slo_node, with_sli, sli_of, datasource_leaf, bound_datasources,
  build_slo_tree, build_slo_sections, is_standard, slis_by_name, datasources_by_name,
}

with_sli-erase_all :
    (slis : Map MinSli) (o : Option String) (ts : List TreeNode)
    → erase_all (to_nodes (section_with_sli slis o ts)) ≡ erase_all (to_nodes (with_sli slis o ts))
unfolding erase_all with_sli section_with_sli
with_sli-erase_all slis none ts = refl
with_sli-erase_all slis (some n) ts = refl

slo_node-erase_sli_badges :
    (slis : Map MinSli) (dss : Map MinDs) (bindings : List MinBinding) (slo : MinSlo)
    → erase_sli_badges (section_slo_node slis dss bindings slo)
      ≡ erase_sli_badges (slo_node slis dss bindings slo)
unfolding erase_sli_badges slo_node section_slo_node section_datasource_leaf datasource_leaf
    section_bound_datasources bound_datasources section_sli_of sli_of
slo_node-erase_sli_badges slis dss bindings slo = rw (
    with_sli-erase_all slis (sli_of slo)
      (map (datasource_leaf dss) (bound_datasources bindings slo.name)))

map-erase_sli_badges :
    (slis : Map MinSli) (dss : Map MinDs) (bindings : List MinBinding) (slos : List MinSlo)
    → map erase_sli_badges (map (section_slo_node slis dss bindings) slos)
      ≡ map erase_sli_badges (map (slo_node slis dss bindings) slos)
map-erase_sli_badges slis dss bindings [] = refl
map-erase_sli_badges slis dss bindings (s ∷ slos) =
    cc (slo_node-erase_sli_badges slis dss bindings s, map-erase_sli_badges slis dss bindings slos)

filter_comm :
    (p q : MinSlo → Bool) (slos : List MinSlo) → filter p (filter q slos) ≡ filter q (filter p slos)
filter_comm p q [] = refl
filter_comm p q (s ∷ slos) = ground (arith, filter_comm p q slos)

-- Up to the badge of its SLI nodes, the standard section is the tree that `buildSloTree` makes of
-- the SLOs of the standard kind.
pub standard-build_slo_tree :
    (slos : List MinSlo) (slis : List MinSli) (datasources : List MinDs)
    (bindings : List MinBinding) (groups : List SloGroup)
    → map erase_sli_badges (build_slo_sections slos slis datasources bindings groups).standard
      ≡ map erase_sli_badges (build_slo_tree (filter is_standard slos) slis datasources bindings)
unfolding build_slo_sections build_slo_tree
standard-build_slo_tree slos slis datasources bindings groups =
    rw (filter_comm is_standard (λ s. s.active) slos) (
      map-erase_sli_badges (slis_by_name slis) (datasources_by_name datasources) bindings
        (filter (λ s. s.active) (filter is_standard slos)))
