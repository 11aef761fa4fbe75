-- ===== src/Forms/Tests.antt =====
-- The theorems about the forms at concrete inputs, with whole numbers.
use tropek.Prelude.{ℕ, ◌≡◌, refl, true, false, none, some, [], ◌∷◌, arith, eqb, All, eqb→eq}
use tropek.Js.Map.{Map}
use tropek.Js.Text.{decimal}
use tropek.Js.Number.{NumberText}
use tropek.Js.Text.{is_white_space}
use tropek.Js.Text.Decimal.{digits_value-decimal}
use tropek.Js.Digits.{digits_value}
use tropek.Js.Trim.{every}
use tropek.Entities.Slos.{Slo, SloObjective, MethodCriteriaOverride}
use tropek.Forms.Criteria.{
  Operator, Sign, CriteriaParts, default_criteria, parse_criteria, serialize_criteria,
}
use tropek.Forms.Criteria.RoundTrip.{ReadsBack, parse_criteria-serialize_criteria}
use tropek.Forms.Rows.{IndicatorRow, add_criterion, toggle_check, remove_criterion, update_row}
use tropek.Forms.Rows.Filled.{IsFilled, Edit, edits, edits-IsFilled}
use tropek.Entities.Slis.{Sli}
use tropek.Forms.Wizard.{Wizard, PickSliData, start}
use tropek.Forms.Methods.{Patch, no_override, get_effective, update_method}
use tropek.Forms.Methods.Shown.{inputs, entered, get_effective-update_method}

abbrev wholes : NumberText
wholes = record {
  Number = ℕ;
  of_ℕ = λ n. n;
  same = eqb;
  parse_float = digits_value;
  print = decimal;
}

abbrev ten_percent_more : CriteriaParts ℕ
ten_percent_more = record {
  operator = Operator.less_equal;
  sign = some Sign.plus;
  value = 10;
  percent = true;
}

ten-ReadsBack : ReadsBack wholes 10
unfolding every is_white_space decimal
ten-ReadsBack = record { parse_float-print = digits_value-decimal 10; print-units = refl }

parse_criteria-serialize_criteria_example :
    parse_criteria wholes (serialize_criteria wholes ten_percent_more) ≡ some ten_percent_more
parse_criteria-serialize_criteria_example =
    parse_criteria-serialize_criteria wholes ten_percent_more ten-ReadsBack (λ e. ground (arith, e))

abbrev row : IndicatorRow ℕ
row = record {
  sli = "latency";
  checked = true;
  weight = 1;
  key_sli = false;
  pass_criteria = default_criteria wholes ∷ [];
  warn_criteria = default_criteria wholes ∷ [];
}

abbrev wider : IndicatorRow ℕ
wider = record row {
  checked = false;
  pass_criteria = default_criteria wholes ∷ [];
  warn_criteria = default_criteria wholes ∷ [];
}

row-edits :
    edits wholes (Edit.add 0 ∷ Edit.toggle_at 0 ∷ Edit.drop 0 1 ∷ []) (row ∷ []) ≡ some (wider ∷ [])
unfolding add_criterion toggle_check remove_criterion update_row
row-edits = refl

edits-IsFilled_example : All (IsFilled wholes) (wider ∷ [])
edits-IsFilled_example =
    edits-IsFilled wholes (Edit.add 0 ∷ Edit.toggle_at 0 ∷ Edit.drop 0 1 ∷ []) (row ∷ [])
      (wider ∷ []) ((ground arith, refl), tt) row-edits

abbrev objective : SloObjective ℕ
objective = record {
  sli = "latency";
  display_name = "Latency";
  pass_threshold = "<=+10%" ∷ [];
  warning_threshold = [];
  weight = 1;
  key_sli = false;
  sort_order = 4;
}

abbrev slo : Slo ℕ ℕ
slo = record {
  id = "1";
  name = "web";
  version = 1;
  comparable_from_version = 1;
  display_name = none;
  author = none;
  notes = none;
  tags = ("team", "a") ∷ [];
  variables = [];
  kind = "standard";
  sli_definition_id = none;
  sli_name = none;
  sli_version = none;
  created_at = 0;
  active = true;
  objectives = objective ∷ [];
  total_score_pass_threshold = 90;
  total_score_warning_threshold = 75;
  comparison = record {
    compare_with = none;
    include_result_with_score = none;
    number_of_comparison_results = none;
    aggregate_function = none;
    scope_tags = none;
  };
  method_criteria = none;
}

-- The SLI of the objectives, with an indicator that they do not have.
abbrev full_sli : Sli ℕ ℕ
full_sli = record {
  id = "1";
  name = "web";
  display_name = none;
  adapter_type = "prometheus";
  version = 4;
  comparable_from_version = 1;
  indicators = ("errors", "e") ∷ ("latency", "l") ∷ [];
  mode = "raw";
  query_template = none;
  interval = none;
  methods = none;
  notes = none;
  author = none;
  tags = [];
  active = true;
  created_at = 0;
}

abbrev picked : PickSliData ℕ
picked = record { sli_name = "web"; sli_version = some 4; indicators = full_sli.indicators }

abbrev edited : Wizard ℕ
edited = record (start wholes (some slo)) { indicator_rows = row ∷ [] }

abbrev overrides : Map (MethodCriteriaOverride ℕ)
overrides = ("p95", record (no_override wholes) { weight = some 3 }) ∷ []

get_effective-update_method_example :
    inputs wholes (
      get_effective wholes "<100" 1
        (update_method wholes "<100" 1 overrides "p95" (Patch.pass_text "<50"))
        "p95")
    ≡ entered wholes
        (Patch.pass_text "<50")
        (inputs wholes (get_effective wholes "<100" 1 overrides "p95"))
get_effective-update_method_example =
    get_effective-update_method wholes "<100" 1 (λ m n e. eqb→eq m n e) overrides "p95" "p95"
      (Patch.pass_text "<50")
