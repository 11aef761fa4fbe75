-- ===== src/QueryKeys.antt =====
-- The keys of the cached queries: ui/src/lib/queryKeys.ts. A query is invalidated with every key that
-- starts with the given one.
mod Reading
mod Tests
use tropek.Prelude.{
  ℕ, zero, suc, ◌+◌, ◌-◌, ◌*◌, ◌/◌, ◌%◌, ◌≤◌, ◌<◌, String, ◌≡◌, refl, sym, ap, ◌∙◌, ◌≢◌, ◌↔◌, ◌⊎◌,
  inl, inr, Bool, true, false, not, ◌&&◌, ◌||◌, Option, none, some, List, [], ◌∷◌, ◌++◌, map,
  reverse, arith, ◌==◌, eq_iff, eq_refl, ltb, leb, eqb, if◌then◌else◌, Bool-cases, Bool_ext,
  Option-cases, or_default, or_else, and_then, map?, is_some, length, get_elem?, filter, find, any,
  map_from, drop_at_from, All, Any, length-append, length-map, length-reverse,
  get_elem?-append_left, get_elem?-append_length, get_elem?-reverse, get_elem?-map, All-append,
  ltb→lt, lt→ltb, leb→le, eqb→eq, eqb_refl, tests, min, max,
}
use tropek.Js.Map.{
  contains, IsDistinct, Map, keys, get, set, set_all, from_entries, find_last, get-set,
  get-from_entries, contains-keys-set, keys-set-IsDistinct, contains-keys,
}
use tropek.Js.Unique.{
  unique_from, unique_by, unique, unique_by-IsDistinct, contains-unique_by, find-unique_by,
  All-unique_by, Any-of_contains, contains_of-Any,
}
use tropek.Js.Text.{◌+++◌, decimal}
use tropek.Js.MultiMap.{
  push_at, non_empty, more, more_nil, more-more, get-push_at, values, values-push_at-perm,
}

-- A part of a key: a text, or filters, names of evaluations or a date range as they are.
pub data Part (F : Type 0) : Type 0 where
  text : String → Part F
  value : F → Part F

pub data Family : Type 0 where
  evaluations trends slo_trends heatmaps names assets asset_types label_keys label_values slos slis
        groups assignments datasources slo_groups :
      Family

abbrev pub root : Family → String
root Family.evaluations = "evaluations"
root Family.trends = "trend"
root Family.slo_trends = "slo-trends"
root Family.heatmaps = "metric-heatmap"
root Family.names = "evaluation-names"
root Family.assets = "assets"
root Family.asset_types = "asset-types"
root Family.label_keys = "label-keys"
root Family.label_values = "label-values"
root Family.slos = "slos"
root Family.slis = "sli-definitions"
root Family.groups = "asset-groups"
root Family.assignments = "slo-assignments"
root Family.datasources = "datasources"
root Family.slo_groups = "slo-groups"

module _ {F : Type 0} where
  -- `[root]`, and what follows it.
  unfoldable pub all_of : Family → List (Part F)
  all_of family = Part.text (root family) ∷ []

  unfoldable pub under : Family → List (Part F) → List (Part F)
  unfolding all_of
  under family parts = all_of family ++ parts

  -- evaluationKeys
  unfoldable pub evaluation_list : F → List (Part F)
  unfolding under
  evaluation_list filters = under Family.evaluations (Part.value filters ∷ [])

  unfoldable pub evaluation_detail : String → List (Part F)
  unfolding under
  evaluation_detail id = under Family.evaluations (Part.text id ∷ [])

  unfoldable pub column_annotations : String → List (Part F)
  unfolding under
  column_annotations evaluation_id =
      under Family.evaluations (Part.text "column-annotations" ∷ Part.text evaluation_id ∷ [])

  unfoldable pub trend_key : String → String → String → F → List (Part F)
  unfolding under
  trend_key asset_name slo_name metric date_range =
      under Family.trends
        (Part.text asset_name ∷ Part.text slo_name ∷ Part.text metric ∷ Part.value date_range ∷ [])

  unfoldable pub slo_trends_key : String → String → F → List (Part F)
  unfolding under
  slo_trends_key asset_name slo_name date_range =
      under Family.slo_trends
        (Part.text asset_name ∷ Part.text slo_name ∷ Part.value date_range ∷ [])

  -- The names of the evaluations are a part only where there are some.
  unfoldable pub heatmap : String → F → Option F → List (Part F)
  unfolding under
  heatmap asset_name filters none =
      under Family.heatmaps (Part.text asset_name ∷ Part.value filters ∷ [])
  heatmap asset_name filters (some eval_names) =
      under Family.heatmaps (Part.text asset_name ∷ Part.value filters ∷ Part.value eval_names ∷ [])

  unfoldable pub evaluation_names : F → List (Part F)
  unfolding under
  evaluation_names scope = under Family.names (Part.value scope ∷ [])

  -- `detail(name)` of sloKeys, sliKeys, groupKeys, datasourceKeys and sloGroupKeys
  unfoldable pub detail : Family → String → List (Part F)
  unfolding under
  detail family name = under family (Part.text name ∷ [])

  -- `tagKeys()` and `tagValues(key)` of sloKeys, sliKeys and datasourceKeys
  unfoldable pub tag_keys : Family → List (Part F)
  unfolding under
  tag_keys family = under family (Part.text "tag-keys" ∷ [])

  unfoldable pub tag_values : Family → String → List (Part F)
  unfolding under
  tag_values family key = under family (Part.text "tag-values" ∷ Part.text key ∷ [])

  -- sliKeys.versions, groupKeys.links and groupKeys.assignments
  unfoldable pub below_detail : Family → String → String → List (Part F)
  unfolding detail
  below_detail family name word = detail family name ++ Part.text word ∷ []

  -- assetKeys.groups and groupKeys.tree
  unfoldable pub asset_groups : List (Part F)
  unfolding under
  asset_groups = under Family.assets (Part.text "groups" ∷ [])

  unfoldable pub group_tree : List (Part F)
  unfolding under
  group_tree = under Family.groups (Part.text "tree" ∷ [])

  -- assignmentKeys.asset and assignmentKeys.group
  unfoldable pub assignment_asset : String → List (Part F)
  unfolding under
  assignment_asset asset_name =
      under Family.assignments (Part.text "asset" ∷ Part.text asset_name ∷ [])

  unfoldable pub assignment_group : String → List (Part F)
  unfolding under
  assignment_group group_name =
      under Family.assignments (Part.text "group" ∷ Part.text group_name ∷ [])

  -- labelKeys.keys and labelKeys.values
  unfoldable pub label_keys_key : List (Part F)
  unfolding all_of
  label_keys_key = all_of Family.label_keys

  unfoldable pub label_values_key : String → List (Part F)
  unfolding under
  label_values_key key = under Family.label_values (Part.text key ∷ [])
