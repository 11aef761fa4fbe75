-- ===== src/Actions/Batch/Rows.antt =====
-- The rows that a bulk action leaves: run-batch.ts of
-- ui/src/features/evaluations/components/actions.
use tropek.Prelude.{
  String, ◌≡◌, refl, ap, ◌⊎◌, inl, inr, Bool, true, false, none, List, [], ◌∷◌, map, if◌then◌else◌,
  Bool-cases, or_default, is_some, All,
}
use tropek.Js.Map.{contains}
use tropek.Actions.Batch.{
  BatchTarget, Status, RowResult, Answer, succeeded_row, failed_row, run_batch,
}

-- The answer says that the evaluation was changed.
abbrev pub is_applied : {N : Type 0} → Answer N → String → Bool
is_applied (Answer.returned outcome) id = contains id outcome.succeeded
is_applied (Answer.thrown message) id = false

abbrev pub status_of : {N : Type 0} → Answer N → BatchTarget → Status
status_of answer target =
    if is_applied answer target.slo_evaluation_id then Status.success else Status.failed

abbrev pub row_facts : RowResult → String × String × Status
row_facts row = (row.slo_name, row.slo_evaluation_id, row.status)

-- The status of a row goes with its error.
abbrev pub HasItsError : RowResult → Type 0
HasItsError row =
    ((row.status ≡ Status.success) × (row.error ≡ none))
    ⊎ ((row.status ≡ Status.failed) × (is_some row.error ≡ true))

facts-succeeded :
    (succeeded : List String) (targets : List BatchTarget)
    → map row_facts (map (succeeded_row succeeded) targets)
      ≡ map
          (λ t. (
            t.slo_name,
            t.slo_evaluation_id,
            if contains t.slo_evaluation_id succeeded then Status.success else Status.failed,
          ))
          targets
unfolding succeeded_row
facts-succeeded succeeded [] = refl
facts-succeeded succeeded (t ∷ targets) =
    ap
      ((
        t.slo_name,
        t.slo_evaluation_id,
        if contains t.slo_evaluation_id succeeded then Status.success else Status.failed,
      )
        ∷◌)
      (facts-succeeded succeeded targets)

facts-failed :
    (message : String) (targets : List BatchTarget)
    → map row_facts (map (failed_row message) targets)
      ≡ map (λ t. (t.slo_name, t.slo_evaluation_id, Status.failed)) targets
unfolding failed_row
facts-failed message [] = refl
facts-failed message (t ∷ targets) =
    ap ((t.slo_name, t.slo_evaluation_id, Status.failed) ∷◌) (facts-failed message targets)

errors-succeeded :
    (succeeded : List String) (targets : List BatchTarget)
    → All HasItsError (map (succeeded_row succeeded) targets)
unfolding succeeded_row
errors-succeeded succeeded [] = tt
errors-succeeded succeeded (t ∷ targets) = (
  elim (Bool-cases (contains t.slo_evaluation_id succeeded)) [
    | inl h ↦ rw h (inl (refl, refl))
    | inr h ↦ rw h (inr (refl, refl))
  ],
  errors-succeeded succeeded targets,
)

errors-failed :
    (message : String) (targets : List BatchTarget)
    → All HasItsError (map (failed_row message) targets)
unfolding failed_row
errors-failed message [] = tt
errors-failed message (t ∷ targets) = (inr (refl, refl), errors-failed message targets)

-- Every target has one row, in order: a success exactly where the answer names its evaluation, and
-- a failure for the others and for all of them where the request throws; the failures, and they
-- alone, have an error text.
pub run_batch_lem :
    {N : Type 0} (targets : List BatchTarget) (answer : Answer N)
    → (map row_facts (run_batch targets answer)
        ≡ map (λ t. (t.slo_name, t.slo_evaluation_id, status_of answer t)) targets)
      × All HasItsError (run_batch targets answer)
unfolding run_batch
run_batch_lem targets (Answer.returned outcome) =
    (facts-succeeded outcome.succeeded targets, errors-succeeded outcome.succeeded targets)
run_batch_lem targets (Answer.thrown message) = (
  facts-failed (or_default message "unknown error") targets,
  errors-failed (or_default message "unknown error") targets,
)
