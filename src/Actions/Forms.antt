-- ===== src/Actions/Forms.antt =====
-- The forms of the bulk actions: InvalidateForm.tsx, RestoreForm.tsx, BaselineForm.tsx and
-- OverrideForm.tsx of ui/src/features/evaluations/components/actions, with useReasonAuthor.ts and
-- invalidate-column-queries.ts. A confirmed action sends its request in one step and takes the
-- answer in another; in between other things can happen.
pub mod Runs
use tropek.Prelude.{
  ℕ, zero, suc, ◌+◌, ◌-◌, ◌*◌, ◌/◌, ◌%◌, ◌≤◌, ◌<◌, String, ◌≡◌, refl, sym, ap, ◌∙◌, ◌≢◌, ◌↔◌, ◌⊎◌,
  inl, inr, Bool, true, false, not, ◌&&◌, ◌||◌, Option, none, some, List, [], ◌∷◌, ◌++◌, map,
  reverse, arith, ◌==◌, eq_iff, eq_refl, ltb, leb, eqb, if◌then◌else◌, Bool-cases, Bool_ext,
  Option-cases, or_default, or_else, and_then, map?, is_some, length, get_elem?, filter, find, any,
  map_from, drop_at_from, All, Any, length-append, length-map, length-reverse,
  get_elem?-append_left, get_elem?-append_length, get_elem?-reverse, get_elem?-map, All-append,
  ltb→lt, lt→ltb, leb→le, eqb→eq, eqb_refl, tests, min, max,
}
use tropek.Js.Map.{
  contains, IsDistinct, Map, keys, get, set, set_all, from_entries, find_last, get-set,
  get-from_entries, contains-keys-set, keys-set-IsDistinct, contains-keys,
}
use tropek.Js.Unique.{
  unique_from, unique_by, unique, unique_by-IsDistinct, contains-unique_by, find-unique_by,
  All-unique_by, Any-of_contains, contains_of-Any,
}
use tropek.Js.Text.{◌+++◌, decimal}
use tropek.Js.MultiMap.{
  push_at, non_empty, more, more_nil, more-more, get-push_at, values, values-push_at-perm,
}
use tropek.Results.{outcome_text}
use tropek.Evaluations.Inputs.{OverridableOutcome}
use tropek.QueryKeys.{Part, Family, all_of, evaluation_detail}
use tropek.Js.Trim.{trim}
use tropek.Actions.Scope.{SloScopeOption}
use tropek.Actions.Batch.{BatchTarget, Status, RowResult, Answer, ids_of, run_batch}

-- The state of a form; `waiting` is what handleConfirm holds while its request runs: the rows that
-- were skipped and the targets that were sent.
pub record Form : Type 0 where
  pub submitting : Bool
  pub results : Option (List RowResult)
  pub waiting : Option (List RowResult × List BatchTarget)

abbrev pub empty_form : Form
empty_form = record { submitting = false; results = none; waiting = none }

unfoldable pub can_confirm : Bool → List String → Form → Bool
can_confirm fields_valid selected form =
    fields_valid && (ltb 0 (length selected) && not form.submitting)

unfoldable pub target_of : List SloScopeOption → String → BatchTarget
target_of options name = record {
  slo_name = name;
  slo_evaluation_id =
      or_default (map? (λ o. o.slo_evaluation_id) (find (λ slo. slo.slo_name == name) options)) "";
}

-- handleConfirm of the forms that send every target, up to the request; none where it returns at
-- once.
unfoldable pub confirm :
    Bool → List SloScopeOption → List String → Form → Option (List String × Form)
unfolding can_confirm target_of
confirm fields_valid options selected form =
    let targets = map (target_of options) selected in
    if can_confirm fields_valid selected form
    then some (ids_of targets, record form { submitting = true; waiting = some ([], targets) })
    else none

abbrev target_text : OverridableOutcome → String
target_text OverridableOutcome.pass = "pass"
target_text OverridableOutcome.warning = "warning"
target_text OverridableOutcome.fail = "fail"

abbrev pub current_is : OverridableOutcome → Option SloScopeOption → Bool
current_is target none = false
current_is target (some option) = outcome_text option.current_result == target_text target

abbrev pub at_target : OverridableOutcome → List SloScopeOption → String → Bool
at_target target options name = current_is target (find (λ slo. slo.slo_name == name) options)

unfoldable pub skipped_row : List SloScopeOption → String → RowResult
unfolding target_of
skipped_row options name = record {
  slo_name = name;
  slo_evaluation_id = (target_of options name).slo_evaluation_id;
  status = Status.skipped;
  error = none;
}

-- handleConfirm of OverrideForm: the names that are at the target already are skipped, and without
-- any other nothing is sent and the rows stand at once.
unfoldable pub confirm_override :
    Bool
    → OverridableOutcome
    → List SloScopeOption
    → List String
    → Form
    → Option (Option (List String) × Form)
unfolding can_confirm target_of skipped_row
confirm_override fields_valid target options selected form =
    let skipped = map (skipped_row options) (filter (at_target target options) selected) in
    let to_apply =
      map (target_of options) (filter (λ name. not (at_target target options name)) selected) in
    if can_confirm fields_valid selected form
    then some (
        if ltb 0 (length to_apply)
        then (
          some (ids_of to_apply),
          record form { submitting = true; waiting = some (skipped, to_apply) },
        )
        else (none, record form { submitting = false; results = some skipped }))
    else none

-- The rest of handleConfirm, when the answer comes.
unfoldable pub finish : {N : Type 0} → Answer N → Form → Form
unfolding run_batch
finish answer form = elim form.waiting [
  | none ↦ form
  | some (skipped, targets) ↦ record {
    submitting = false;
    results = some (skipped ++ run_batch targets answer);
    waiting = none;
  }
]

abbrev pub is_success : Status → Bool
is_success Status.success = true
is_success Status.failed = false
is_success Status.skipped = false

abbrev pub is_failed : Status → Bool
is_failed Status.success = false
is_failed Status.failed = true
is_failed Status.skipped = false

unfoldable pub succeeded_ids : List RowResult → List String
succeeded_ids rows = map (λ row. row.slo_evaluation_id) (filter (λ row. is_success row.status) rows)

-- The keys that are invalidated, in order.
unfoldable pub invalidate_column_queries : {F : Type 0} → List String → List (List (Part F))
unfolding all_of evaluation_detail
invalidate_column_queries ids =
    map evaluation_detail ids
    ++ all_of Family.evaluations
      ∷ all_of Family.names
      ∷ all_of Family.heatmaps
      ∷ all_of Family.trends
      ∷ all_of Family.slo_trends
      ∷ []

-- The button `Retry failed`: the selection it makes, and the form.
unfoldable pub failed_names : List RowResult → List String
failed_names rows = map (λ row. row.slo_name) (filter (λ row. is_failed row.status) rows)

unfoldable pub retry : List RowResult → Form → List String × Form
unfolding failed_names unique_by
retry rows form = (unique (failed_names rows), record form { results = none })

-- useReasonAuthor: both fields are given.
unfoldable pub reason_author_valid : String → String → Bool
unfolding trim
reason_author_valid reason author = not (trim reason == "") && not (trim author == "")
