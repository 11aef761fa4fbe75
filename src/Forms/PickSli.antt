-- ===== src/Forms/PickSli.antt =====
-- The choice of an SLI: the state and handlers of
-- features/registry/forms/WizardStepPickSli.tsx. An SLI always comes with its tags.
pub mod Offered
use tropek.Prelude.{
  ℕ, zero, suc, ◌+◌, ◌-◌, ◌*◌, ◌/◌, ◌%◌, ◌≤◌, ◌<◌, String, ◌≡◌, refl, sym, ap, ◌∙◌, ◌≢◌, ◌↔◌, ◌⊎◌,
  inl, inr, Bool, true, false, not, ◌&&◌, ◌||◌, Option, none, some, List, [], ◌∷◌, ◌++◌, map,
  reverse, arith, ◌==◌, eq_iff, eq_refl, ltb, leb, eqb, if◌then◌else◌, Bool-cases, Bool_ext,
  Option-cases, or_default, or_else, and_then, map?, is_some, length, get_elem?, filter, find, any,
  map_from, drop_at_from, All, Any, length-append, length-map, length-reverse,
  get_elem?-append_left, get_elem?-append_length, get_elem?-reverse, get_elem?-map, All-append,
  ltb→lt, lt→ltb, leb→le, eqb→eq, eqb_refl, tests, min, max,
}
use tropek.Js.Map.{
  contains, IsDistinct, Map, keys, get, set, set_all, from_entries, find_last, get-set,
  get-from_entries, contains-keys-set, keys-set-IsDistinct, contains-keys,
}
use tropek.Js.Unique.{
  unique_from, unique_by, unique, unique_by-IsDistinct, contains-unique_by, find-unique_by,
  All-unique_by, Any-of_contains, contains_of-Any,
}
use tropek.Js.Text.{◌+++◌, decimal}
use tropek.Js.MultiMap.{
  push_at, non_empty, more, more_nil, more-more, get-push_at, values, values-push_at-perm,
}
use tropek.Js.Map.{delete_key}
use tropek.Entities.Slis.{Sli}
use tropek.Forms.Wizard.{PickSliData}

abbrev pub is_value : Option String → String → Bool
is_value none value = false
is_value (some v) value = v == value

abbrev pub has_value : Map String → String → String → Bool
has_value tags key value = is_value (get tags key) value

unfoldable pub handle_tag_toggle : String → String → Map String → Map String
unfolding set delete_key get
handle_tag_toggle key value prev =
    if has_value prev key value then delete_key prev key else set prev key value

module _ {N D : Type 0} where
  unfoldable pub has_tags : Map String → Sli N D → Bool
  has_tags selected sli = not (any (λ entry. not (has_value sli.tags entry.0 entry.1)) selected)

  unfoldable pub filtered_slis : Map String → List (Sli N D) → List (Sli N D)
  unfolding has_tags
  filtered_slis selected slis = filter (has_tags selected) slis

  unfoldable pub handle_sli_select : String → List (Sli N D) → PickSliData N → PickSliData N
  handle_sli_select sli_name slis current =
      let sli = find (λ s. s.name == sli_name) slis in
      record current {
        sli_name = sli_name;
        sli_version = map? (λ s. s.version) sli;
        indicators = or_default (map? (λ s. s.indicators) sli) [];
      }

  -- The SLI that shares an indicator with the objectives of the edit.
  unfoldable pub shares_indicator : List String → Sli N D → Bool
  unfolding contains
  shares_indicator names sli = any (λ k. contains k names) (keys sli.indicators)

  -- The effect that picks it, once and only where none is picked; the flag is `autoSelectedRef`.
  unfoldable pub auto_select :
      Bool → List String → List (Sli N D) → PickSliData N → Bool × Option (PickSliData N)
  unfolding shares_indicator
  auto_select selected names slis current =
      let found = find (shares_indicator names) slis in
      if selected || (leb (length names) 0 || (leb (length slis) 0 || not (current.sli_name == "")))
      then (selected, none)
      else elim found [
        | none ↦ (selected, none)
        | some sli ↦ (
          true,
          some (record {
            sli_name = sli.name;
            sli_version = some sli.version;
            indicators = sli.indicators;
          }),
        )
      ]
