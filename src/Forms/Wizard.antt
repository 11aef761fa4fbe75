-- ===== src/Forms/Wizard.antt =====
-- The wizard of an SLO: its state, handlers and the request that it sends, in
-- features/registry/forms/SloWizard.tsx, with the data of its steps. An edit sends the method criteria
-- as they are, with the names of the interface's fields.
pub mod Submit
pub mod Merge
use tropek.Prelude.{
  ℕ, zero, suc, ◌+◌, ◌-◌, ◌*◌, ◌/◌, ◌%◌, ◌≤◌, ◌<◌, String, ◌≡◌, refl, sym, ap, ◌∙◌, ◌≢◌, ◌↔◌, ◌⊎◌,
  inl, inr, Bool, true, false, not, ◌&&◌, ◌||◌, Option, none, some, List, [], ◌∷◌, ◌++◌, map,
  reverse, arith, ◌==◌, eq_iff, eq_refl, ltb, leb, eqb, if◌then◌else◌, Bool-cases, Bool_ext,
  Option-cases, or_default, or_else, and_then, map?, is_some, length, get_elem?, filter, find, any,
  map_from, drop_at_from, All, Any, length-append, length-map, length-reverse,
  get_elem?-append_left, get_elem?-append_length, get_elem?-reverse, get_elem?-map, All-append,
  ltb→lt, lt→ltb, leb→le, eqb→eq, eqb_refl, tests, min, max,
}
use tropek.Js.Map.{
  contains, IsDistinct, Map, keys, get, set, set_all, from_entries, find_last, get-set,
  get-from_entries, contains-keys-set, keys-set-IsDistinct, contains-keys,
}
use tropek.Js.Unique.{
  unique_from, unique_by, unique, unique_by-IsDistinct, contains-unique_by, find-unique_by,
  All-unique_by, Any-of_contains, contains_of-Any,
}
use tropek.Js.Text.{◌+++◌, decimal}
use tropek.Js.MultiMap.{
  push_at, non_empty, more, more_nil, more-more, get-push_at, values, values-push_at-perm,
}
use tropek.Js.Number.{NumberText}
use tropek.Js.Trim.{trim, includes}
use tropek.Evaluations.Mappers.{truthy}
use tropek.Entities.Slos.{Slo, SloObjective, SloComparisonConfig, MethodCriteriaOverride}
use tropek.Entities.Slis.{Sli}
use tropek.Forms.Criteria.{CriteriaParts, default_criteria, parse_criteria, serialize_criteria}
use tropek.Forms.Tags.{TagRow, tags_to_rows, rows_to_tags}
use tropek.Forms.Rows.{IndicatorRow}

pub record IdentityData : Type 0 where
  pub name : String
  pub display_name : String
  pub author : String
  pub notes : String

pub record PickSliData (N : Type 0) : Type 0 where
  pub sli_name : String
  pub sli_version : Option N
  pub indicators : Map String

pub record ComparisonData (N : Type 0) : Type 0 where
  pub compare_count : N
  pub aggregate_function : String
  pub include_result_with_score : String
  pub pass_threshold : N
  pub warn_criteria : N
  pub tags : List TagRow
  pub variables : List TagRow

-- The state of the component; `merged` is its ref `sliMergedRef`.
pub record Wizard (N : Type 0) : Type 0 where
  pub identity : IdentityData
  pub pick_sli : PickSliData N
  pub indicator_rows : List (IndicatorRow N)
  pub method_criteria : Map (MethodCriteriaOverride N)
  pub comparison : ComparisonData N
  pub template_warning : Bool
  pub merged : Bool

-- An objective of the request.
pub record ObjectiveInput (N : Type 0) : Type 0 where
  pub sli : String
  pub display_name : String
  pub pass_threshold : List String
  pub warning_threshold : List String
  pub weight : N
  pub key_sli : Bool
  pub sort_order : N

pub record ComparisonInput (N : Type 0) : Type 0 where
  pub number_of_comparison_results : N
  pub aggregate_function : String
  pub include_result_with_score : String

-- The request that the wizard sends.
pub record SloCreateInput (N : Type 0) : Type 0 where
  pub name : String
  pub display_name : Option String
  pub author : Option String
  pub notes : Option String
  pub sli_name : Option String
  pub sli_version : Option N
  pub objectives : List (ObjectiveInput N)
  pub method_criteria : Option (Map (MethodCriteriaOverride N))
  pub total_score_pass_threshold : N
  pub total_score_warning_threshold : N
  pub comparison : ComparisonInput N
  pub tags : Option (Map String)
  pub variables : Option (Map String)
  pub kind : String

-- `Object.keys(o).length > 0 ? o : undefined`
abbrev pub unless_empty {ℓ} : {A : Type ℓ} → Map A → Option (Map A)
unless_empty [] = none
unless_empty (e ∷ es) = some (e ∷ es)

module _ (numbers : NumberText) where
  abbrev N : Type 0
  N = numbers.Number

  abbrev Criteria : Type 0
  Criteria = List (CriteriaParts N)

  unfoldable pub build_identity_from_edit : {D : Type 0} → Slo N D → IdentityData
  build_identity_from_edit slo = record {
    name = slo.name;
    display_name = or_default slo.display_name "";
    author = or_default slo.author "";
    notes = or_default slo.notes "";
  }

  unfoldable pub criterion_from_edit : String → CriteriaParts N
  unfolding parse_criteria
  criterion_from_edit c = or_default (parse_criteria numbers c) (default_criteria numbers)

  unfoldable pub criteria_from_edit : List String → Criteria
  unfolding criterion_from_edit
  criteria_from_edit [] = default_criteria numbers ∷ []
  criteria_from_edit (c ∷ cs) = map criterion_from_edit (c ∷ cs)

  unfoldable pub row_from_edit : SloObjective N → IndicatorRow N
  unfolding criteria_from_edit
  row_from_edit obj = record {
    sli = obj.sli;
    checked = true;
    weight = obj.weight;
    key_sli = obj.key_sli;
    pass_criteria = criteria_from_edit obj.pass_threshold;
    warn_criteria = criteria_from_edit obj.warning_threshold;
  }

  unfoldable pub build_indicator_rows_from_edit : {D : Type 0} → Slo N D → List (IndicatorRow N)
  unfolding row_from_edit
  build_indicator_rows_from_edit slo = map row_from_edit slo.objectives

  unfoldable pub build_comparison_from_edit : {D : Type 0} → Slo N D → ComparisonData N
  unfolding tags_to_rows
  build_comparison_from_edit slo = record {
    compare_count = or_default slo.comparison.number_of_comparison_results (numbers.of_ℕ 3);
    aggregate_function = or_default slo.comparison.aggregate_function "avg";
    include_result_with_score = or_default slo.comparison.include_result_with_score "pass_or_warn";
    pass_threshold = slo.total_score_pass_threshold;
    warn_criteria = slo.total_score_warning_threshold;
    tags = tags_to_rows slo.tags;
    variables = map (λ entry. record { key = entry.0; value = entry.1 }) slo.variables;
  }

  -- The first state, for a new SLO and for the edit of one.
  unfoldable pub start : {D : Type 0} → Option (Slo N D) → Wizard N
  unfolding build_identity_from_edit build_indicator_rows_from_edit build_comparison_from_edit
      from_entries
  start none = record {
    identity = record { name = ""; display_name = ""; author = ""; notes = "" };
    pick_sli = record { sli_name = ""; sli_version = none; indicators = [] };
    indicator_rows = [];
    method_criteria = [];
    comparison = record {
      compare_count = numbers.of_ℕ 3;
      aggregate_function = "avg";
      include_result_with_score = "pass_or_warn";
      pass_threshold = numbers.of_ℕ 90;
      warn_criteria = numbers.of_ℕ 75;
      tags = [];
      variables = [];
    };
    template_warning = false;
    merged = false;
  }
  start (some slo) = record {
    identity = build_identity_from_edit slo;
    pick_sli = record {
      sli_name = or_default slo.sli_name "";
      sli_version = slo.sli_version;
      indicators = from_entries (map (λ o. (o.sli, "")) slo.objectives);
    };
    indicator_rows = build_indicator_rows_from_edit slo;
    method_criteria = or_default slo.method_criteria [];
    comparison = build_comparison_from_edit slo;
    template_warning = false;
    merged = false;
  }

  unfoldable pub kind_of : {D : Type 0} → Option (Slo N D) → Option String → String
  kind_of edit_slo default_kind =
      or_default (or_else (map? (λ slo. slo.kind) edit_slo) default_kind) "standard"

module _ (numbers : NumberText) where
  unfoldable pub new_row : String → IndicatorRow numbers.Number
  new_row name = record {
    sli = name;
    checked = false;
    weight = numbers.of_ℕ 1;
    key_sli = false;
    pass_criteria = default_criteria numbers ∷ [];
    warn_criteria = default_criteria numbers ∷ [];
  }

  unfoldable pub merge_rows :
      List String → List (IndicatorRow numbers.Number) → List (IndicatorRow numbers.Number)
  unfolding new_row
  merge_rows names prev =
      map (λ name. or_default (find (λ r. r.sli == name) prev) (new_row name)) names

  -- The effect that merges the SLI once it is fetched.
  unfoldable pub merge_sli :
      {D : Type 0}
      → Option (Sli numbers.Number D)
      → Bool
      → Wizard numbers.Number
      → Wizard numbers.Number
  unfolding merge_rows
  merge_sli none is_edit w = w
  merge_sli (some full_sli) is_edit w = if w.merged || not is_edit then w else record w {
    merged = true;
    pick_sli = record w.pick_sli {
      sli_version = some full_sli.version;
      indicators = full_sli.indicators;
    };
    indicator_rows = merge_rows (keys full_sli.indicators) w.indicator_rows;
  }

  unfoldable pub handle_pick_sli_change :
      PickSliData numbers.Number → Wizard numbers.Number → Wizard numbers.Number
  unfolding merge_rows
  handle_pick_sli_change picked w =
      let rows = merge_rows (keys picked.indicators) w.indicator_rows in
      record w {
        pick_sli = picked;
        indicator_rows = if ltb 0 (length (keys picked.indicators)) then rows else w.indicator_rows;
      }

  unfoldable pub checked_rows : Wizard numbers.Number → List (IndicatorRow numbers.Number)
  checked_rows w = filter (λ r. r.checked) w.indicator_rows

  unfoldable pub is_valid : Wizard numbers.Number → Bool
  unfolding checked_rows trim
  is_valid w =
      not (trim w.identity.name == "")
      && (ltb 0 (length (checked_rows w))
          && not (any (λ r. not (ltb 0 (length r.pass_criteria))) (checked_rows w)))

  unfoldable pub objective_input : ℕ → IndicatorRow numbers.Number → ObjectiveInput numbers.Number
  unfolding serialize_criteria
  objective_input idx row = record {
    sli = row.sli;
    display_name = row.sli;
    pass_threshold = map (serialize_criteria numbers) row.pass_criteria;
    warning_threshold = map (serialize_criteria numbers) row.warn_criteria;
    weight = row.weight;
    key_sli = row.key_sli;
    sort_order = numbers.of_ℕ idx;
  }

  -- The request of doSubmit; the variables go the way of the tags.
  unfoldable pub do_submit : String → Wizard numbers.Number → SloCreateInput numbers.Number
  unfolding objective_input checked_rows rows_to_tags
  do_submit kind w = record {
    name = w.identity.name;
    display_name = truthy (some w.identity.display_name);
    author = truthy (some w.identity.author);
    notes = truthy (some w.identity.notes);
    sli_name = truthy (some w.pick_sli.sli_name);
    sli_version = w.pick_sli.sli_version;
    objectives = map_from 0 objective_input (checked_rows w);
    method_criteria = unless_empty w.method_criteria;
    total_score_pass_threshold = w.comparison.pass_threshold;
    total_score_warning_threshold = w.comparison.warn_criteria;
    comparison = record {
      number_of_comparison_results = w.comparison.compare_count;
      aggregate_function = w.comparison.aggregate_function;
      include_result_with_score = w.comparison.include_result_with_score;
    };
    tags = unless_empty (rows_to_tags w.comparison.tags);
    variables = unless_empty (rows_to_tags w.comparison.variables);
    kind = kind;
  }

  unfoldable pub has_gen_vars : Wizard numbers.Number → Bool
  unfolding includes
  has_gen_vars w = any (λ v. includes "$__gen_" v.value) w.comparison.variables

  -- The state after the button, and the request if one is sent.
  unfoldable pub handle_submit :
      String
      → Wizard numbers.Number
      → Wizard numbers.Number × Option (SloCreateInput numbers.Number)
  unfolding is_valid has_gen_vars do_submit
  handle_submit kind w =
      if not (is_valid w)
      then (w, none)
      else if kind == "template" && not (has_gen_vars w)
      then (record w { template_warning = true }, none)
      else (w, some (do_submit kind w))

  -- The buttons of the warning: `Go Back & Fix` and `Save Anyway`.
  unfoldable pub go_back : Wizard numbers.Number → Wizard numbers.Number
  go_back w = record w { template_warning = false }

  unfoldable pub save_anyway :
      String
      → Wizard numbers.Number
      → Wizard numbers.Number × Option (SloCreateInput numbers.Number)
  unfolding do_submit
  save_anyway kind w = (record w { template_warning = false }, some (do_submit kind w))
