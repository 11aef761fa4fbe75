-- ===== src/Forms/Tags.antt =====
-- The rows of a form for tags and variables: features/registry/forms/tagUtils.ts. The keys of an
-- object stand in the order in which they came; no key is an array index.
pub mod RoundTrip
use tropek.Prelude.{
  ℕ, zero, suc, ◌+◌, ◌-◌, ◌*◌, ◌/◌, ◌%◌, ◌≤◌, ◌<◌, String, ◌≡◌, refl, sym, ap, ◌∙◌, ◌≢◌, ◌↔◌, ◌⊎◌,
  inl, inr, Bool, true, false, not, ◌&&◌, ◌||◌, Option, none, some, List, [], ◌∷◌, ◌++◌, map,
  reverse, arith, ◌==◌, eq_iff, eq_refl, ltb, leb, eqb, if◌then◌else◌, Bool-cases, Bool_ext,
  Option-cases, or_default, or_else, and_then, map?, is_some, length, get_elem?, filter, find, any,
  map_from, drop_at_from, All, Any, length-append, length-map, length-reverse,
  get_elem?-append_left, get_elem?-append_length, get_elem?-reverse, get_elem?-map, All-append,
  ltb→lt, lt→ltb, leb→le, eqb→eq, eqb_refl, tests, min, max,
}
use tropek.Js.Map.{
  contains, IsDistinct, Map, keys, get, set, set_all, from_entries, find_last, get-set,
  get-from_entries, contains-keys-set, keys-set-IsDistinct, contains-keys,
}
use tropek.Js.Unique.{
  unique_from, unique_by, unique, unique_by-IsDistinct, contains-unique_by, find-unique_by,
  All-unique_by, Any-of_contains, contains_of-Any,
}
use tropek.Js.Text.{◌+++◌, decimal}
use tropek.Js.MultiMap.{
  push_at, non_empty, more, more_nil, more-more, get-push_at, values, values-push_at-perm,
}
use tropek.Js.Trim.{trim}

pub record TagRow : Type 0 where
  pub key : String
  pub value : String

unfoldable pub tags_to_rows : Map String → List TagRow
tags_to_rows tags = map (λ entry. record { key = entry.0; value = entry.1 }) tags

unfoldable pub add_row : Map String → TagRow → Map String
unfolding trim set
add_row result row = if trim row.key == "" then result else set result (trim row.key) row.value

unfoldable pub add_rows : Map String → List TagRow → Map String
unfolding add_row
add_rows result [] = result
add_rows result (row ∷ rows) = add_rows (add_row result row) rows

unfoldable pub rows_to_tags : List TagRow → Map String
unfolding add_rows
rows_to_tags rows = add_rows [] rows
