-- ===== src/Actions/Tests.antt =====
-- The theorems about the bulk actions at concrete inputs.
use tropek.Prelude.{
  ℕ, String, ◌≡◌, refl, false, Option, none, some, List, [], ◌∷◌, map, map?, All, Any,
}
use tropek.Results.{Outcome, HeatmapResult}
use tropek.Evaluations.Requests.{
  ReEvaluateMode, PinStrategy, ReEvaluateInput, ReEvaluateSelector, build_selector,
}
use tropek.Actions.ReEvaluate.{ReEvaluation, can_run, mode_of, submit_re_eval, confirm_run}
use tropek.Actions.ReEvaluate.Pins.{request, confirm_run-selected, submit_re_eval-pin_strategy}
use tropek.Actions.Scope.{ScopeGroup, SloScopeOption, SloScopeFilter, options_of}
use tropek.Actions.Scope.Options.{IsFound, options_of-IsFound}
use tropek.Actions.Batch.{BatchTarget, Answer, run_batch}
use tropek.Actions.Batch.Rows.{HasItsError, row_facts, status_of, run_batch_lem}

abbrev group : ScopeGroup
group = record {
  slo_name = "web";
  slo_display_name = none;
  summary =
      record { evaluation_id = "3"; result = HeatmapResult.pass }
      ∷ record { evaluation_id = "4"; result = HeatmapResult.invalidated }
      ∷ [];
  cells = record { evaluation_id = "4"; slo_evaluation_id = "9" } ∷ [];
}

options_of-IsFound_example :
    All
      (λ o. Any (IsFound "4" SloScopeFilter.invalidated_only o) (group ∷ []))
      (options_of "4" SloScopeFilter.invalidated_only (group ∷ []))
options_of-IsFound_example = options_of-IsFound "4" SloScopeFilter.invalidated_only (group ∷ [])

-- The one option is offered.
invalidated_offered :
    map (λ o. o.slo_evaluation_id) (options_of "4" SloScopeFilter.invalidated_only (group ∷ []))
    ≡ "9" ∷ []
unfolding options_of
invalidated_offered = refl

abbrev two_targets : List BatchTarget
two_targets =
    record { slo_name = "web"; slo_evaluation_id = "9" }
    ∷ record { slo_name = "db"; slo_evaluation_id = "" }
    ∷ []

abbrev refused : Answer ℕ
refused = Answer.thrown (some "503")

run_batch_lem_example :
    (map row_facts (run_batch two_targets refused)
      ≡ map (λ t. (t.slo_name, t.slo_evaluation_id, status_of refused t)) two_targets)
    × All HasItsError (run_batch two_targets refused)
run_batch_lem_example = run_batch_lem two_targets refused

abbrev two_options : List SloScopeOption
two_options =
    record {
      slo_name = "web";
      display_name = "Web";
      slo_evaluation_id = "9";
      current_result = Outcome.pass;
    }
    ∷ record {
      slo_name = "db";
      display_name = "Db";
      slo_evaluation_id = "8";
      current_result = Outcome.fail;
    }
    ∷ []

abbrev both : List String
both = "web" ∷ "db" ∷ []

abbrev dated : ReEvaluation ℕ
dated = record {
  from_date = "2026-01-01T00:00";
  from_baseline = false;
  re_eval_result = none;
  pin_conflict = some (record { pin_date = "2026-02-01"; pin_evaluation_id = "4" });
}

abbrev as_written : String → Option String
as_written date = some date

confirm_run-selected_example :
    (input : ReEvaluateInput ℕ) × ((confirm_run as_written "host" both dated).0 ≡ some input)
    × (build_selector input ≡ ReEvaluateSelector.evaluation_names both)
    × ((confirm_run as_written "host" both dated).1.pin_conflict ≡ none)
unfolding can_run mode_of
confirm_run-selected_example =
    confirm_run-selected as_written "host" both dated (ReEvaluateMode.date "2026-01-01T00:00") refl
      refl

submit_re_eval-pin_strategy_example :
    request as_written "host"
      (submit_re_eval as_written "host" both (some PinStrategy.ignore_pin) dated)
    ≡ request as_written "host" (submit_re_eval as_written "host" both none dated)
submit_re_eval-pin_strategy_example =
    submit_re_eval-pin_strategy as_written "host" both dated (some PinStrategy.ignore_pin) none refl

-- From the button of a conflict, where the selection is empty by then, all SLOs are selected.
abbrev selector_sent : Option (ReEvaluateInput ℕ) → Option ReEvaluateSelector
selector_sent input = map? build_selector input

nothing_selected :
    selector_sent (submit_re_eval as_written "host" [] (some PinStrategy.ignore_pin) dated).0
    ≡ some ReEvaluateSelector.everything
unfolding submit_re_eval build_selector
nothing_selected = refl
