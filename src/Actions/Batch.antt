-- ===== src/Actions/Batch.antt =====
-- One bulk action over the chosen SLOs and its rows: run-batch.ts of
-- ui/src/features/evaluations/components/actions.
pub mod Rows
use tropek.Prelude.{
  ℕ, zero, suc, ◌+◌, ◌-◌, ◌*◌, ◌/◌, ◌%◌, ◌≤◌, ◌<◌, String, ◌≡◌, refl, sym, ap, ◌∙◌, ◌≢◌, ◌↔◌, ◌⊎◌,
  inl, inr, Bool, true, false, not, ◌&&◌, ◌||◌, Option, none, some, List, [], ◌∷◌, ◌++◌, map,
  reverse, arith, ◌==◌, eq_iff, eq_refl, ltb, leb, eqb, if◌then◌else◌, Bool-cases, Bool_ext,
  Option-cases, or_default, or_else, and_then, map?, is_some, length, get_elem?, filter, find, any,
  map_from, drop_at_from, All, Any, length-append, length-map, length-reverse,
  get_elem?-append_left, get_elem?-append_length, get_elem?-reverse, get_elem?-map, All-append,
  ltb→lt, lt→ltb, leb→le, eqb→eq, eqb_refl, tests, min, max,
}
use tropek.Js.Map.{
  contains, IsDistinct, Map, keys, get, set, set_all, from_entries, find_last, get-set,
  get-from_entries, contains-keys-set, keys-set-IsDistinct, contains-keys,
}
use tropek.Js.Unique.{
  unique_from, unique_by, unique, unique_by-IsDistinct, contains-unique_by, find-unique_by,
  All-unique_by, Any-of_contains, contains_of-Any,
}
use tropek.Js.Text.{◌+++◌, decimal}
use tropek.Js.MultiMap.{
  push_at, non_empty, more, more_nil, more-more, get-push_at, values, values-push_at-perm,
}
use tropek.Evaluations.Domain.{BulkActionOutcome}

pub record BatchTarget : Type 0 where
  pub slo_name : String
  pub slo_evaluation_id : String

pub data Status : Type 0 where
  success failed skipped : Status

pub record RowResult : Type 0 where
  pub slo_name : String
  pub slo_evaluation_id : String
  pub status : Status
  pub error : Option String

-- How the request ends: with an outcome, or with something thrown, whose message an Error has.
pub data Answer (N : Type 0) : Type 0 where
  returned : BulkActionOutcome N → Answer N
  thrown : Option String → Answer N

abbrev pub ids_of : List BatchTarget → List String
ids_of targets = map (λ target. target.slo_evaluation_id) targets

unfoldable pub succeeded_row : List String → BatchTarget → RowResult
unfolding contains
succeeded_row succeeded target =
    let applied = contains target.slo_evaluation_id succeeded in
    record {
      slo_name = target.slo_name;
      slo_evaluation_id = target.slo_evaluation_id;
      status = if applied then Status.success else Status.failed;
      error = if applied then none else some "not applied";
    }

unfoldable pub failed_row : String → BatchTarget → RowResult
failed_row message target = record {
  slo_name = target.slo_name;
  slo_evaluation_id = target.slo_evaluation_id;
  status = Status.failed;
  error = some message;
}

-- The rows, once the call with `ids_of targets` has ended.
unfoldable pub run_batch : {N : Type 0} → List BatchTarget → Answer N → List RowResult
unfolding succeeded_row failed_row
run_batch targets (Answer.returned outcome) = map (succeeded_row outcome.succeeded) targets
run_batch targets (Answer.thrown message) =
    map (failed_row (or_default message "unknown error")) targets
