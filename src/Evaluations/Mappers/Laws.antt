-- ===== src/Evaluations/Mappers/Laws.antt =====
-- What the mappers of the evaluations keep.
use tropek.Prelude.{
  String, ◌≡◌, refl, inl, inr, Bool, true, false, ◌||◌, Option, none, some, List, [], ◌∷◌, map,
  arith, ◌==◌, eq_iff, if◌then◌else◌, Bool-cases, map?, is_some,
}
use tropek.Js.Map.{Map, get}
use tropek.Results.{Outcome, HeatmapResult, outcome_text, to_heatmap_result}
use tropek.Js.Number.{Arithmetic}
use tropek.Navigator.Types.{SummaryCellDto}
use tropek.Navigator.MiniView.{normalize_text, normalize_result, canonical_summary_result}
use tropek.Evaluations.Dto.{TrendPointDto}
use tropek.Evaluations.Mappers.Answers.{dto_to_trend_point, dto_to_slo_trends}
use tropek.Evaluations.Mappers.{outcome_of, normalize_outcome, collapse_outcome, truthy}

-- `normalizeOutcome` reads back the text of each outcome.
pub normalize_outcome-outcome_text : (o : Outcome) → normalize_outcome (some (outcome_text o)) ≡ o
unfolding normalize_outcome
normalize_outcome-outcome_text Outcome.pass = refl
normalize_outcome-outcome_text Outcome.warning = refl
normalize_outcome-outcome_text Outcome.fail = refl
normalize_outcome-outcome_text Outcome.error = refl
normalize_outcome-outcome_text Outcome.invalidated = refl

eq_of : (s t : String) → (s == t) ≡ true → s ≡ t
eq_of s t e = ground (arith, eq_iff s t)

normalize_text-outcome_of :
    (raw : String)
    → normalize_text raw
      ≡ (if raw == "" then HeatmapResult.none else to_heatmap_result (outcome_of raw))
unfolding normalize_text outcome_of
normalize_text-outcome_of raw = elim (Bool-cases (raw == "")) [
  | inl e ↦ rw (eq_of raw "" e) refl
  | inr e ↦ rw e (ground arith)
]

shown_alike :
    (invalidated : Bool) (result : Option String)
    → (if invalidated then HeatmapResult.invalidated else normalize_result result) ≡ (
        if invalidated || is_some (truthy result)
        then to_heatmap_result (collapse_outcome result invalidated)
        else HeatmapResult.none)
unfolding collapse_outcome normalize_outcome normalize_result
shown_alike true result = refl
shown_alike false none = refl
shown_alike false (some raw) =
    rw (normalize_text-outcome_of raw)
      (elim (Bool-cases (raw == "")) [ inl e ↦ rw e refl | inr e ↦ rw e refl ])

-- The heatmap and the evaluation views show one evaluation alike, whatever the API says of its
-- result: an invalidated one as that, a result that is null or empty as no data in the heatmap only,
-- and any other as the same outcome.
canonical_summary_result-collapse_outcome :
    (a : Arithmetic) (cell : SummaryCellDto (a.Number))
    → canonical_summary_result a cell ≡ (
        if cell.invalidated || is_some (truthy cell.result)
        then to_heatmap_result (collapse_outcome cell.result cell.invalidated)
        else HeatmapResult.none)
unfolding canonical_summary_result collapse_outcome
canonical_summary_result-collapse_outcome a cell = shown_alike cell.invalidated cell.result

get-map :
    {A B : Type 0} (f : A → B) (m : Map A) (k : String)
    → get (map (λ (key, value). (key, f value)) m) k ≡ map? f (get m k)
unfolding get
get-map f [] k = refl
get-map f ((j, v) ∷ m) k = elim (Bool-cases (j == k)) [
  | inl e ↦ rw e refl
  | inr e ↦ rw (e, get-map f m k)
]

-- The points of a metric are those that the API sent for it, in the same order, each mapped; a metric
-- that it did not send has none.
pub get-dto_to_slo_trends :
    {N D : Type 0} (new_date : String → D) (dto : Map (List (TrendPointDto N))) (metric : String)
    → get (dto_to_slo_trends new_date dto) metric
      ≡ map? (map (dto_to_trend_point new_date)) (get dto metric)
unfolding dto_to_slo_trends
get-dto_to_slo_trends new_date dto metric = get-map (map (dto_to_trend_point new_date)) dto metric
