-- ===== src/Evaluations/Tests.antt =====
-- The theorems about the evaluations at concrete inputs.
use tropek.Prelude.{
  ℕ, String, ◌≡◌, refl, inl, Bool, true, false, none, some, List, [], ◌∷◌, map, eqb,
}
use tropek.Js.Map.{get}
use tropek.Evaluations.Trend.{
  Level, target_key, level_text, DiscoveredTarget, ChartTarget, toggles, toggle,
}
use tropek.Results.{Outcome}
use tropek.Navigator.Types.{SummaryCellDto}
use tropek.Evaluations.Domain.{PassTarget, TrendPoint, Indicator}
use tropek.Evaluations.Dto.{TrendPointDto}
use tropek.Evaluations.Requests.{ReEvaluateMode, ReEvaluateInput}
use tropek.Evaluations.Requests.Laws.{asked, meant, re_evaluate_input_to_dto_injective}
use tropek.Evaluations.Hooks.{OverrideState}
use tropek.Evaluations.Trend.Toggles.{flip, toggles-toggle}

abbrev target : ℕ → PassTarget ℕ
target n = record { criteria = "<=+10%"; target_value = n; violated = false }

abbrev point : ℕ → TrendPoint ℕ ℕ
point n = record {
  timestamp = n;
  value = 5;
  score = 90;
  eval_id = "e";
  outcome = Outcome.pass;
  baseline = none;
  evaluation_name = none;
  targets = some (record { pass = target 0 ∷ []; warn = target n ∷ [] });
  overridden = false;
  change_point = none;
}

abbrev trend : List (TrendPoint ℕ ℕ)
trend = point 0 ∷ point 7 ∷ []

abbrev is_zero : ℕ → Bool
is_zero n = eqb n 0

abbrev any_order : String → String → Bool
any_order s t = true

abbrev found : List DiscoveredTarget
found =
    (record { key = "warn:<10"; level = Level.warn; criteria = "<10"; always_zero = false }) ∷ []

abbrev found_toggle : ChartTarget
found_toggle = record {
  key = "warn:<10";
  level = some Level.warn;
  criteria = "<10";
  visible = true;
}

toggles-toggle_example :
    toggles (toggle found_toggle []) found true ≡ map (flip "warn:<10") (toggles [] found true)
unfolding target_key level_text toggles get
toggles-toggle_example = toggles-toggle [] found true found_toggle (refl, tt) (inl refl)

abbrev cell : SummaryCellDto ℕ
cell = record { evaluation_id = "e"; result = some "warning"; invalidated = false; score = none }

abbrev sent : TrendPointDto ℕ
sent = record {
  baseline = none;
  change_point = none;
  eval_id = "e";
  evaluation_name = none;
  result = "fail";
  score = 10;
  targets = none;
  timestamp = "2026";
  value = 3;
}

abbrev input : ReEvaluateInput ℕ
input = record {
  asset_name = "a";
  slo_name = none;
  slo_names = some [];
  mode = ReEvaluateMode.evaluation "e";
  slo_version = some 2;
  dry_run = true;
  pin_strategy = none;
}

re_evaluate_input_to_dto_injective_example :
    (input.asset_name ≡ input.asset_name)
    × (asked input ≡ asked input)
    × (input.slo_version ≡ input.slo_version)
    × (input.dry_run ≡ input.dry_run)
    × (meant input.mode input.pin_strategy ≡ meant input.mode input.pin_strategy)
re_evaluate_input_to_dto_injective_example = re_evaluate_input_to_dto_injective input input refl

abbrev indicator : Indicator ℕ
indicator = record {
  metric = "latency";
  display_name = "Latency";
  tab_group = some "speed";
  value = none;
  compared_value = none;
  change_absolute = none;
  change_relative_pct = none;
  aggregation = none;
  status = "pass";
  score = 1;
  weight = 1;
  key_sli = false;
  pass_targets = [];
  warning_targets = [];
  change_point = none;
}

abbrev fresh_state : OverrideState Bool
fresh_state = record { override = none; last_generation = 3 }
