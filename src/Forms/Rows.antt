-- ===== src/Forms/Rows.antt =====
-- The indicators of the SLO wizard: the rows and their handlers in
-- features/registry/forms/WizardStepIndicators.tsx. A handler of a row that is not there throws.
pub mod Filled
use tropek.Prelude.{
  ℕ, zero, suc, ◌+◌, ◌-◌, ◌*◌, ◌/◌, ◌%◌, ◌≤◌, ◌<◌, String, ◌≡◌, refl, sym, ap, ◌∙◌, ◌≢◌, ◌↔◌, ◌⊎◌,
  inl, inr, Bool, true, false, not, ◌&&◌, ◌||◌, Option, none, some, List, [], ◌∷◌, ◌++◌, map,
  reverse, arith, ◌==◌, eq_iff, eq_refl, ltb, leb, eqb, if◌then◌else◌, Bool-cases, Bool_ext,
  Option-cases, or_default, or_else, and_then, map?, is_some, length, get_elem?, filter, find, any,
  map_from, drop_at_from, All, Any, length-append, length-map, length-reverse,
  get_elem?-append_left, get_elem?-append_length, get_elem?-reverse, get_elem?-map, All-append,
  ltb→lt, lt→ltb, leb→le, eqb→eq, eqb_refl, tests, min, max,
}
use tropek.Js.Map.{
  contains, IsDistinct, Map, keys, get, set, set_all, from_entries, find_last, get-set,
  get-from_entries, contains-keys-set, keys-set-IsDistinct, contains-keys,
}
use tropek.Js.Unique.{
  unique_from, unique_by, unique, unique_by-IsDistinct, contains-unique_by, find-unique_by,
  All-unique_by, Any-of_contains, contains_of-Any,
}
use tropek.Js.Text.{◌+++◌, decimal}
use tropek.Js.MultiMap.{
  push_at, non_empty, more, more_nil, more-more, get-push_at, values, values-push_at-perm,
}
use tropek.Js.Number.{NumberText}
use tropek.Forms.Criteria.{CriteriaParts, default_criteria}

pub record IndicatorRow (Number : Type 0) : Type 0 where
  pub sli : String
  pub checked : Bool
  pub weight : Number
  pub key_sli : Bool
  pub pass_criteria : List (CriteriaParts Number)
  pub warn_criteria : List (CriteriaParts Number)

module _ (numbers : NumberText) where
  abbrev Row : Type 0
  Row = IndicatorRow numbers.Number

  -- `updateRow(index, patch)`, where the patch is a change of fields.
  unfoldable pub update_row : ℕ → (Row → Row) → List Row → List Row
  update_row index patch rows = map_from 0 (λ i row. if eqb i index then patch row else row) rows

  unfoldable pub toggle_check : ℕ → List Row → Option (List Row)
  unfolding update_row
  toggle_check index rows =
      map? (λ row. update_row index (λ r. record r { checked = not row.checked }) rows)
        (get_elem? rows index)

  unfoldable pub set_weight : ℕ → numbers.Number → List Row → Option (List Row)
  unfolding update_row
  set_weight index weight rows = some (update_row index (λ r. record r { weight = weight }) rows)

  unfoldable pub set_key : ℕ → Bool → List Row → Option (List Row)
  unfolding update_row
  set_key index key rows = some (update_row index (λ r. record r { key_sli = key }) rows)

  unfoldable pub add_criterion : ℕ → List Row → Option (List Row)
  unfolding update_row
  add_criterion index rows =
      map?
        (λ row.
          update_row index
            (λ r. record r {
              pass_criteria = row.pass_criteria ++ default_criteria numbers ∷ [];
              warn_criteria = row.warn_criteria ++ default_criteria numbers ∷ [];
            })
            rows)
        (get_elem? rows index)

  unfoldable pub remove_criterion : ℕ → ℕ → List Row → Option (List Row)
  unfolding update_row
  remove_criterion row_index criterion_index rows =
      map?
        (λ row.
          if leb (length row.pass_criteria) 1
          then rows
          else update_row row_index
              (λ r. record r {
                pass_criteria = drop_at_from 0 criterion_index row.pass_criteria;
                warn_criteria = drop_at_from 0 criterion_index row.warn_criteria;
              })
              rows)
        (get_elem? rows row_index)

  abbrev pub replace_at :
      ℕ
      → CriteriaParts numbers.Number
      → List (CriteriaParts numbers.Number)
      → List (CriteriaParts numbers.Number)
  replace_at index parts criteria = map_from 0 (λ i c. if eqb i index then parts else c) criteria

  unfoldable pub update_pass_criteria :
      ℕ → ℕ → CriteriaParts numbers.Number → List Row → Option (List Row)
  unfolding update_row
  update_pass_criteria row_index criterion_index parts rows =
      map?
        (λ row.
          update_row row_index
            (λ r. record r { pass_criteria = replace_at criterion_index parts row.pass_criteria })
            rows)
        (get_elem? rows row_index)

  unfoldable pub update_warn_criteria :
      ℕ → ℕ → CriteriaParts numbers.Number → List Row → Option (List Row)
  unfolding update_row
  update_warn_criteria row_index criterion_index parts rows =
      map?
        (λ row.
          update_row row_index
            (λ r. record r { warn_criteria = replace_at criterion_index parts row.warn_criteria })
            rows)
        (get_elem? rows row_index)
