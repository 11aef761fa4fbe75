-- ===== src/Evaluations/Mappers.antt =====
-- features/evaluations/mappers.ts, the read side: from the answers of the API to the domain.
pub mod Answers
pub mod Laws
use tropek.Prelude.{
  ℕ, zero, suc, ◌+◌, ◌-◌, ◌*◌, ◌/◌, ◌%◌, ◌≤◌, ◌<◌, String, ◌≡◌, refl, sym, ap, ◌∙◌, ◌≢◌, ◌↔◌, ◌⊎◌,
  inl, inr, Bool, true, false, not, ◌&&◌, ◌||◌, Option, none, some, List, [], ◌∷◌, ◌++◌, map,
  reverse, arith, ◌==◌, eq_iff, eq_refl, ltb, leb, eqb, if◌then◌else◌, Bool-cases, Bool_ext,
  Option-cases, or_default, or_else, and_then, map?, is_some, length, get_elem?, filter, find, any,
  All, Any, length-append, length-map, length-reverse, get_elem?-append_left,
  get_elem?-append_length, get_elem?-reverse, get_elem?-map, All-append, ltb→lt, lt→ltb, leb→le,
  eqb→eq, eqb_refl, tests, min, max,
}
use tropek.Js.Map.{
  contains, IsDistinct, Map, keys, get, set, set_all, from_entries, find_last, get-set,
  get-from_entries, contains-keys-set, keys-set-IsDistinct, contains-keys,
}
use tropek.Js.Unique.{
  unique_from, unique_by, unique, unique_by-IsDistinct, contains-unique_by, find-unique_by,
  All-unique_by, Any-of_contains, contains_of-Any,
}
use tropek.Js.Text.{◌+++◌, decimal}
use tropek.Js.MultiMap.{
  push_at, non_empty, more, more_nil, more-more, get-push_at, values, values-push_at-perm,
}
use tropek.Results.{Outcome}
use tropek.Evaluations.Domain.{
  DateRange, NoteCategory, AssetSnapshot, BaselinePin, Annotation, FailingIndicator, PassTarget,
  ChangePointMarker, Indicator, SliMetadata, Evaluation, EvaluationDetail, EvaluationList,
  TrendTargets, TrendPoint, ReEvaluateResultItem, ReEvaluateResponse, EvaluationNameEntry,
}
use tropek.Evaluations.Dto.{
  AssetSnapshotDto, NoteCategoryDto, AnnotationDto, FailingIndicatorDto, PassTargetDto,
  ChangePointDto, IndicatorResultDto, SliMetadataDto, EvaluationSummaryDto, EvaluationDetailDto,
  EvaluationListDto, TrendTargetsDto, TrendPointDto, ReEvalResultItemDto, ReEvaluateResponseDto,
  EvaluationNameEntryDto,
}

unfoldable pub make_date_range : String → String → DateRange
make_date_range from to = record { from = from; to = to }

unfoldable pub outcome_of : String → Outcome
outcome_of raw =
    if raw == "pass"
    then Outcome.pass
    else (if raw == "warning"
        then Outcome.warning
        else (if raw == "fail"
            then Outcome.fail
            else (if raw == "error"
                then Outcome.error
                else (if raw == "invalidated" then Outcome.invalidated else Outcome.error))))

unfoldable pub normalize_outcome : Option String → Outcome
unfolding outcome_of
normalize_outcome none = Outcome.error
normalize_outcome (some raw) = outcome_of raw

unfoldable pub collapse_outcome : Option String → Bool → Outcome
unfolding normalize_outcome
collapse_outcome result invalidated =
    if invalidated then Outcome.invalidated else normalize_outcome result

unfoldable pub dto_to_asset_snapshot : AssetSnapshotDto → AssetSnapshot
dto_to_asset_snapshot dto = record {
  asset_id = dto.asset_id;
  name = dto.name;
  display_name = dto.display_name;
  tags = or_default dto.tags [];
  primary_version = dto.primary_version;
  build_ref = dto.build_ref;
}

-- The value of a text that may be missing or empty, as `x ? … : null` tests it.
abbrev pub truthy : Option String → Option String
truthy none = none
truthy (some s) = if s == "" then none else some s

module _ {N : Type 0} where
  unfoldable pub dto_to_failing_indicator : FailingIndicatorDto N → FailingIndicator N
  dto_to_failing_indicator dto = record {
    metric = dto.metric;
    display_name = dto.display_name;
    value = dto.value;
    threshold = dto.threshold;
  }

  unfoldable pub dto_to_sli_metadata : SliMetadataDto N → SliMetadata N
  dto_to_sli_metadata dto = record {
    mode = dto.mode;
    expected_samples = dto.expected_samples;
    actual_samples = dto.actual_samples;
    missing_pct = dto.missing_pct;
    chunks_failed = dto.chunks_failed;
  }

  -- `dtoToPassTarget` and `dtoToTrendTargetEntry`
  unfoldable pub dto_to_pass_target : PassTargetDto N → PassTarget N
  dto_to_pass_target dto = record {
    criteria = dto.criteria;
    target_value = dto.target_value;
    violated = dto.violated;
  }

  unfoldable pub dto_to_trend_targets : TrendTargetsDto N → TrendTargets N
  unfolding dto_to_pass_target
  dto_to_trend_targets dto = record {
    pass = map dto_to_pass_target (or_default dto.pass []);
    warn = map dto_to_pass_target (or_default dto.warn []);
  }

  unfoldable pub dto_to_re_evaluate_result_item : ReEvalResultItemDto N → ReEvaluateResultItem N
  unfolding make_date_range normalize_outcome
  dto_to_re_evaluate_result_item dto = record {
    id = dto.id;
    evaluation_name = dto.evaluation_name;
    slo_name = dto.slo_name;
    slo_version = dto.slo_version;
    period = make_date_range dto.period_start dto.period_end;
    old_outcome = normalize_outcome (some dto.old_result);
    new_outcome = normalize_outcome (some dto.new_result);
    old_score = dto.old_score;
    new_score = dto.new_score;
  }

  unfoldable pub dto_to_re_evaluate_response : ReEvaluateResponseDto N → ReEvaluateResponse N
  unfolding dto_to_re_evaluate_result_item
  dto_to_re_evaluate_response dto = record {
    affected_evaluations = dto.affected_evaluations;
    slo_version_used = dto.slo_version_used;
    results = map dto_to_re_evaluate_result_item dto.results;
  }

  unfoldable pub change_point_of : ChangePointDto N → ChangePointMarker N
  change_point_of dto = record {
    direction = dto.direction;
    change_relative_pct = dto.change_relative_pct;
    transition = dto.transition;
    change_absolute = dto.change_absolute;
  }

  unfoldable pub dto_to_indicator : IndicatorResultDto N → Indicator N
  unfolding dto_to_pass_target change_point_of
  dto_to_indicator dto = record {
    metric = dto.metric;
    display_name = dto.display_name;
    tab_group = dto.tab_group;
    value = dto.value;
    compared_value = dto.compared_value;
    change_absolute = dto.change_absolute;
    change_relative_pct = dto.change_relative_pct;
    aggregation = dto.aggregation;
    status = dto.status;
    score = dto.score;
    weight = dto.weight;
    key_sli = dto.key_sli;
    pass_targets = map dto_to_pass_target (or_default dto.pass_targets []);
    warning_targets = map dto_to_pass_target (or_default dto.warning_targets []);
    change_point = map? change_point_of dto.change_point;
  }

-- `new Date(text)` is the parameter `new_date`.
module _ {D : Type 0} (new_date : String → D) where
  unfoldable pub dto_to_note_category : NoteCategoryDto → NoteCategory D
  dto_to_note_category dto = record {
    id = dto.id;
    name = dto.name;
    label = dto.label;
    color = dto.color;
    show_on_graph = dto.show_on_graph;
    is_system = dto.is_system;
    created_at = new_date dto.created_at;
    updated_at = map? new_date (truthy dto.updated_at);
  }

module _ {D J : Type 0} (new_date : String → D) where
  unfoldable pub dto_to_annotation : AnnotationDto J → Annotation D J
  unfolding dto_to_note_category
  dto_to_annotation dto = record {
    id = dto.id;
    slo_evaluation_id = dto.slo_evaluation_id;
    evaluation_run_id = dto.evaluation_run_id;
    content = dto.content;
    author = dto.author;
    category_id = dto.category_id;
    category = dto_to_note_category new_date dto.category;
    tags = or_default dto.tags [];
    note_group_id = dto.note_group_id;
    note_group_name = dto.note_group_name;
    hidden_at = map? new_date (truthy dto.hidden_at);
    hidden_by = dto.hidden_by;
    hidden_reason = dto.hidden_reason;
    created_at = new_date dto.created_at;
    updated_at = map? new_date (truthy dto.updated_at);
  }

module _ {N D J : Type 0} (new_date : String → D) where
  unfoldable pub dto_to_baseline_pin : EvaluationSummaryDto N J → Option (BaselinePin D)
  dto_to_baseline_pin dto =
      map?
        (λ pinned_at. record {
          author = or_default dto.baseline_pin_author "";
          reason = or_default dto.baseline_pin_reason "";
          pinned_at = new_date pinned_at;
          unpinned_at = map? new_date (truthy dto.baseline_unpinned_at);
        })
        (truthy dto.baseline_pinned_at)
