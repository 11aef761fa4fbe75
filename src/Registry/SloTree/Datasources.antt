-- ===== src/Registry/SloTree/Datasources.antt =====
-- The datasources that `buildSloTree` shows below each SLO.
use mathlib.Core.List.{append-nil}
use tropek.Prelude.{
  String, ◌≡◌, refl, ap, ◌∙◌, ◌&&◌, Option, none, some, List, [], ◌∷◌, map, arith, ◌==◌, filter,
  any,
}
use tropek.Js.Map.{contains, IsDistinct, Map}
use tropek.Js.Unique.{unique, unique_by-IsDistinct, contains-unique_by}
use tropek.Registry.Types.{MinSlo, MinSli, MinDs, MinBinding, TreeNode, to_nodes}
use tropek.Registry.Names.{names_in, names_in_all, is_datasource}
use tropek.Registry.SloTree.{
  slo_node, with_sli, sli_of, datasource_leaf, bound_datasources, build_slo_tree, slis_by_name,
  datasources_by_name,
}

leaves-names_in :
    (m : Map MinDs) (ns : List String)
    → names_in_all is_datasource (to_nodes (map (datasource_leaf m) ns)) ≡ ns
unfolding names_in_all datasource_leaf
leaves-names_in m [] = refl
leaves-names_in m (n ∷ ns) = ap (◌∷◌ n) (leaves-names_in m ns)

-- The SLI node in between hides no datasource.
with_sli-names_in :
    (slis : Map MinSli) (o : Option String) (ts : List TreeNode)
    → names_in_all is_datasource (to_nodes (with_sli slis o ts))
      ≡ names_in_all is_datasource (to_nodes ts)
unfolding names_in_all with_sli
with_sli-names_in slis none ts = refl
with_sli-names_in slis (some n) ts = append-nil _

slo_node-names_in :
    (slis : Map MinSli) (dss : Map MinDs) (bindings : List MinBinding) (slo : MinSlo)
    → names_in is_datasource (slo_node slis dss bindings slo) ≡ bound_datasources bindings slo.name
unfolding names_in slo_node
slo_node-names_in slis dss bindings slo =
    with_sli-names_in slis (sli_of slo) _
    ∙ leaves-names_in dss (bound_datasources bindings slo.name)

contains-bound :
    (bindings : List MinBinding) (slo_name ds_name : String)
    → contains ds_name
        (map (λ b. b.data_source_name) (filter (λ b. b.slo_name == slo_name) bindings))
      ≡ any (λ b. b.slo_name == slo_name && b.data_source_name == ds_name) bindings
unfolding contains
contains-bound [] slo_name ds_name = refl
contains-bound (b ∷ bs) slo_name ds_name = ground (arith, contains-bound bs slo_name ds_name)

map_id : (xs : List String) → map (λ x. x) xs ≡ xs
map_id [] = refl
map_id (x ∷ xs) = ap (◌∷◌ x) (map_id xs)

-- A datasource is listed for an SLO exactly when a binding joins the two, and only once.
pub bound_datasources_lem :
    (bindings : List MinBinding) (slo_name ds_name : String)
    → IsDistinct (bound_datasources bindings slo_name)
      × (contains ds_name (bound_datasources bindings slo_name)
          ≡ any (λ b. b.slo_name == slo_name && b.data_source_name == ds_name) bindings)
unfolding bound_datasources
bound_datasources_lem bindings slo_name ds_name =
    let xs =
      map (λ (b : MinBinding). b.data_source_name)
        (filter (λ (b : MinBinding). b.slo_name == slo_name) bindings) in
    (
      rw (map_id (unique xs)) at (unique_by-IsDistinct (λ x. x) xs),
      rw (map_id (unique xs), map_id xs) at (contains-unique_by (λ x. x) xs ds_name)
          ∙ contains-bound bindings slo_name ds_name,
    )

map-slo_node :
    (slis : Map MinSli) (dss : Map MinDs) (bindings : List MinBinding) (slos : List MinSlo)
    → map (names_in is_datasource) (map (slo_node slis dss bindings) slos)
      ≡ map (λ s. bound_datasources bindings s.name) slos
map-slo_node slis dss bindings [] = refl
map-slo_node slis dss bindings (s ∷ slos) =
    cc (slo_node-names_in slis dss bindings s, map-slo_node slis dss bindings slos)

-- `buildSloTree` has one node for each active SLO, in their order, and below it, whether or not an
-- SLI node stands between, exactly the datasources that some binding gives the SLO, each once.
pub build_slo_tree-datasources :
    (slos : List MinSlo) (slis : List MinSli) (datasources : List MinDs)
    (bindings : List MinBinding) (slo_name ds_name : String)
    → (map (names_in is_datasource) (build_slo_tree slos slis datasources bindings)
        ≡ map (λ s. bound_datasources bindings s.name) (filter (λ s. s.active) slos))
      × IsDistinct (bound_datasources bindings slo_name)
      × (contains ds_name (bound_datasources bindings slo_name)
          ≡ any (λ b. b.slo_name == slo_name && b.data_source_name == ds_name) bindings)
unfolding build_slo_tree
build_slo_tree-datasources slos slis datasources bindings slo_name ds_name =
    let (distinct, same) = bound_datasources_lem bindings slo_name ds_name in
    (
      map-slo_node (slis_by_name slis) (datasources_by_name datasources) bindings
          (filter (λ s. s.active) slos),
      distinct,
      same,
    )
