-- ===== src/Actions/ReEvaluate.antt =====
-- The form of a re-evaluation: ReEvaluateForm.tsx of
-- ui/src/features/evaluations/components/actions. A run sends an input of Evaluations/Requests in one
-- step and takes the answer in another. The conversion of the date is a parameter, which has no value
-- where `toISOString` throws.
pub mod Pins
use tropek.Prelude.{
  ℕ, zero, suc, ◌+◌, ◌-◌, ◌*◌, ◌/◌, ◌%◌, ◌≤◌, ◌<◌, String, ◌≡◌, refl, sym, ap, ◌∙◌, ◌≢◌, ◌↔◌, ◌⊎◌,
  inl, inr, Bool, true, false, not, ◌&&◌, ◌||◌, Option, none, some, List, [], ◌∷◌, ◌++◌, map,
  reverse, arith, ◌==◌, eq_iff, eq_refl, ltb, leb, eqb, if◌then◌else◌, Bool-cases, Bool_ext,
  Option-cases, or_default, or_else, and_then, map?, is_some, length, get_elem?, filter, find, any,
  map_from, drop_at_from, All, Any, length-append, length-map, length-reverse,
  get_elem?-append_left, get_elem?-append_length, get_elem?-reverse, get_elem?-map, All-append,
  ltb→lt, lt→ltb, leb→le, eqb→eq, eqb_refl, tests, min, max,
}
use tropek.Js.Map.{
  contains, IsDistinct, Map, keys, get, set, set_all, from_entries, find_last, get-set,
  get-from_entries, contains-keys-set, keys-set-IsDistinct, contains-keys,
}
use tropek.Js.Unique.{
  unique_from, unique_by, unique, unique_by-IsDistinct, contains-unique_by, find-unique_by,
  All-unique_by, Any-of_contains, contains_of-Any,
}
use tropek.Js.Text.{◌+++◌, decimal}
use tropek.Js.MultiMap.{
  push_at, non_empty, more, more_nil, more-more, get-push_at, values, values-push_at-perm,
}
use tropek.Evaluations.Domain.{ReEvaluateResponse}
use tropek.Evaluations.Requests.{ReEvaluateMode, PinStrategy, ReEvaluateInput}

pub record PinConflictInfo : Type 0 where
  pub pin_date : String
  pub pin_evaluation_id : String

-- The state of the form.
pub record ReEvaluation (N : Type 0) : Type 0 where
  pub from_date : String
  pub from_baseline : Bool
  pub re_eval_result : Option (ReEvaluateResponse N)
  pub pin_conflict : Option PinConflictInfo

-- How the request ends; an error that is no conflict with a pin has no info.
pub data RunAnswer (N : Type 0) : Type 0 where
  success : ReEvaluateResponse N → RunAnswer N
  failure : Option PinConflictInfo → RunAnswer N

unfoldable pub open_form : {N : Type 0} → Option String → ReEvaluation N
open_form default_from_date = record {
  from_date = or_default default_from_date "";
  from_baseline = false;
  re_eval_result = none;
  pin_conflict = none;
}

unfoldable pub can_run : {N : Type 0} → List String → ReEvaluation N → Bool
can_run selected form =
    (form.from_baseline || not (form.from_date == "")) && ltb 0 (length selected)

unfoldable pub set_from_date : {N : Type 0} → String → ReEvaluation N → ReEvaluation N
set_from_date date form = record form { from_date = date; pin_conflict = none }

unfoldable pub set_from_baseline : {N : Type 0} → Bool → ReEvaluation N → ReEvaluation N
set_from_baseline checked form = record form { from_baseline = checked; pin_conflict = none }

unfoldable pub take_answer : {N : Type 0} → RunAnswer N → ReEvaluation N → ReEvaluation N
take_answer (RunAnswer.success response) form = record form { re_eval_result = some response }
take_answer (RunAnswer.failure none) form = form
take_answer (RunAnswer.failure (some info)) form = record form { pin_conflict = some info }

module _ {N : Type 0} (to_iso : String → Option String) (asset_name : String) where
  unfoldable pub mode_of : ReEvaluation N → Option ReEvaluateMode
  mode_of form =
      if form.from_baseline
      then some ReEvaluateMode.baseline
      else map? ReEvaluateMode.date (to_iso form.from_date)

  -- What is sent, if anything, and the form.
  unfoldable pub submit_re_eval :
      List String
      → Option PinStrategy
      → ReEvaluation N
      → Option (ReEvaluateInput N) × ReEvaluation N
  unfolding mode_of
  submit_re_eval selected pin_strategy form = (
    map?
        (λ mode. record {
          asset_name = asset_name;
          slo_name = none;
          slo_names = some selected;
          mode = mode;
          slo_version = none;
          dry_run = false;
          pin_strategy = pin_strategy;
        })
        (mode_of form),
    record form { pin_conflict = none },
  )

  unfoldable pub confirm_run :
      List String → ReEvaluation N → Option (ReEvaluateInput N) × ReEvaluation N
  unfolding can_run submit_re_eval
  confirm_run selected form =
      if can_run selected form then submit_re_eval selected none form else (none, form)
