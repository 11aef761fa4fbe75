-- ===== src/Navigator/Tests.antt =====
-- The theorems about the heatmaps at concrete inputs.
use tropek.Prelude.{
  map, ℕ, String, ◌≡◌, refl, Bool, true, false, none, some, List, [], ◌∷◌, map, arith, ◌==◌, filter,
  any, All,
}
use tropek.Js.Map.{contains, IsDistinct, get}
use tropek.Results.{Outcome}
use tropek.Js.Number.{whole}
use tropek.Navigator.Types.{EvaluationColumn, SloGroupDto, MiniHeatmapView}
use tropek.Navigator.MiniView.{slo_group_to_mini_view}
use tropek.Navigator.MiniView.Outcomes.{ShowsData, slo_group_to_mini_view-ShowsData}
use tropek.Js.Sort.{IsSorted}
use tropek.Navigator.GroupData.Slots.{build_group_score_data-slots}
use tropek.Navigator.GroupData.{build_group_score_data, Evaluation, cell_key, merge_all, matching}
use tropek.Navigator.GroupData.Merge.{Summarises, of_key, merge_all-Summarises}
use tropek.Navigator.GroupData.Cells.{is_at, matching-merge_all}

abbrev column : EvaluationColumn
column = record {
  evaluation_id = "e";
  period_start = "t";
  period_end = "u";
  eval_name = "nightly";
  has_notes = false;
}

abbrev slo_group : SloGroupDto ℕ
slo_group = record {
  slo_name = "checkout";
  slo_display_name = none;
  metrics = (record { name = "m"; display_name = "M" }) ∷ [];
  cells =
      (record {
        evaluation_id = "e";
        slo_evaluation_id = "x";
        metric = "m";
        result = some "warning";
        score = some 75;
        change_point = none;
      })
      ∷ [];
  summary =
      (record { evaluation_id = "e"; result = some "fail"; invalidated = false; score = some 40 })
      ∷ [];
}

abbrev view : MiniHeatmapView ℕ
view = slo_group_to_mini_view whole slo_group (column ∷ []) true

slo_group_to_mini_view-ShowsData_example : All (ShowsData whole slo_group) view.cells
slo_group_to_mini_view-ShowsData_example =
    slo_group_to_mini_view-ShowsData whole slo_group (column ∷ [])
      ((λ e. ground (arith, e), tt), tt) ((λ e. ground (arith, e), tt), tt) true

abbrev run_of : Outcome → ℕ → Evaluation ℕ
run_of outcome score = record {
  from = "t";
  asset_name = "a";
  asset_display_name = none;
  evaluation_name = "n";
  invalidated = false;
  outcome = some outcome;
  score = some score;
}

abbrev runs : List (Evaluation ℕ)
runs = run_of Outcome.pass 90 ∷ run_of Outcome.fail 30 ∷ []

merge_all-Summarises_example :
    Summarises whole
      (of_key whole (cell_key whole (run_of Outcome.pass 90)) runs)
      (get (merge_all whole [] runs) (cell_key whole (run_of Outcome.pass 90)))
merge_all-Summarises_example =
    merge_all-Summarises whole runs (cell_key whole (run_of Outcome.pass 90))

matching-merge_all_example :
    matching whole (merge_all whole [] runs) "a" "t"
    ≡ map (λ e. e.1) (merge_all whole [] (filter (is_at whole "a" "t") runs))
matching-merge_all_example =
    matching-merge_all whole "a" "t" (λ e. ground (arith, e), tt) (λ e. ground (arith, e), tt) runs
      (
        ((λ e. ground (arith, e), tt), (λ e. ground (arith, e), tt)),
        (((λ e. ground (arith, e), tt), (λ e. ground (arith, e), tt)), tt),
      )

-- Every order of texts will do.
abbrev any_text_order : String → String → Bool
any_text_order s t = true

build_group_score_data-slots_example :
    IsDistinct (map (λ d. d.slot) (build_group_score_data whole any_text_order runs))
    × (contains "t" (map (λ d. d.slot) (build_group_score_data whole any_text_order runs))
        ≡ any (λ e. e.from == "t") runs)
    × IsSorted any_text_order (map (λ d. d.slot) (build_group_score_data whole any_text_order runs))
build_group_score_data-slots_example =
    build_group_score_data-slots whole any_text_order runs "t" (λ x y e. refl)
