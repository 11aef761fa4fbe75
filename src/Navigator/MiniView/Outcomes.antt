-- ===== src/Navigator/MiniView/Outcomes.antt =====
-- Which results the cells of the mini views show.
use tropek.Prelude.{
  ℕ, zero, suc, ◌-◌, inl, inr, Bool-cases, find, map?, String, ◌≡◌, refl, ◌∙◌, Bool, ◌&&◌, Option,
  none, some, List, [], ◌∷◌, map, arith, ◌==◌, eq_iff, eq_refl, if◌then◌else◌, Bool_ext, or_default,
  or_else, and_then, length, get_elem?, All, All-append,
}
use tropek.Js.Map.{get, find_last, get-from_entries}
use tropek.Js.Number.{Arithmetic}
use tropek.Navigator.Types.{
  EvaluationColumn, SummaryCellDto, CellGroupedDto, SloGroupDto, HeatmapEChartsCell,
}
use tropek.Navigator.MiniView.{
  canonical_summary_result, normalize_text, normalize_result, indicator_key, DisplayRow,
  display_rows, score_to_display, summaries_by_id, indicators_by_key, summary_result, header_cell,
  indicator_cell, indicator_result, display_row_cells, all_cells, slo_group_to_mini_view,
}
use tropek.Js.Text.Join.{IsNulFree, nul_cons, join_injective}
use tropek.Results.{HeatmapResult, Outcome, outcome_text, to_heatmap_result}
use tropek.Navigator.MiniView.Grid.{All-row_of}

-- `normalizeResult` reads back the text of each outcome.
pub normalize_result-outcome_text :
    (o : Outcome) → normalize_result (some (outcome_text o)) ≡ to_heatmap_result o
unfolding normalize_result
normalize_result-outcome_text Outcome.pass = refl
normalize_result-outcome_text Outcome.warning = refl
normalize_result-outcome_text Outcome.fail = refl
normalize_result-outcome_text Outcome.error = refl
normalize_result-outcome_text Outcome.invalidated = refl

indicator_key_injective :
    (e e' m m' : String)
    → IsNulFree e
    → IsNulFree e'
    → indicator_key e m ≡ indicator_key e' m'
    → (e ≡ e') × (m ≡ m')
indicator_key_injective e e' m m' h h' same =
    join_injective "\0" e e' m m' h h' (rw (nul_cons m, nul_cons m') at same)

key_test :
    (e e' m m' : String)
    → IsNulFree e
    → IsNulFree e'
    → (indicator_key e m == indicator_key e' m') ≡ (e == e' && m == m')
key_test e e' m m' h h' =
    Bool_ext _ _
      (λ k.
        let (p, q) = indicator_key_injective e e' m m' h h' ((eq_iff _ _).0 k) in
        rw ((eq_iff e e').1 p, (eq_iff m m').1 q))
      (λ k.
        let p : e ≡ e' = (eq_iff e e').0 (ground arith) in
        let q : m ≡ m' = (eq_iff m m').0 (ground arith) in rw (p, q) (eq_refl _))

-- The result whose name a text is; an empty text is no result, and any other text an error.
abbrev results : List HeatmapResult
results =
    HeatmapResult.pass ∷ HeatmapResult.warning ∷ HeatmapResult.fail ∷ HeatmapResult.error
    ∷ HeatmapResult.invalidated ∷ []

abbrev result_text : HeatmapResult → String
result_text HeatmapResult.pass = "pass"
result_text HeatmapResult.warning = "warning"
result_text HeatmapResult.fail = "fail"
result_text HeatmapResult.error = "error"
result_text HeatmapResult.invalidated = "invalidated"
result_text HeatmapResult.none = ""

abbrev pub shown_result : String → HeatmapResult
shown_result raw =
    or_default (find (λ r. raw == result_text r) results)
      (if raw == "" then HeatmapResult.none else HeatmapResult.error)

normalize_text-shown : (raw : String) → normalize_text raw ≡ shown_result raw
unfolding normalize_text
normalize_text-shown raw = elim (Bool-cases (raw == "pass")) [
  | inl e ↦ rw e refl
  | inr e ↦ rw e (elim (Bool-cases (raw == "warning")) [
    | inl f ↦ rw f refl
    | inr f ↦ rw f (elim (Bool-cases (raw == "fail")) [
      | inl g ↦ rw g refl
      | inr g ↦ rw g (elim (Bool-cases (raw == "error")) [
        | inl h ↦ rw h refl
        | inr h ↦
            rw h
              (elim (Bool-cases (raw == "invalidated")) [ inl i ↦ rw i refl | inr i ↦ rw i refl ])
      ])
    ])
  ])
]

module _ (a : Arithmetic) where
  open a use {Number, of_ℕ, round}

  -- The result and the score that a cell shows for what is recorded.
  abbrev pub Shows : Option String → Option Number → HeatmapEChartsCell Number → Type 0
  Shows result score c =
      (c.result ≡ or_default (map? shown_result result) HeatmapResult.none)
      × (c.score ≡ or_default (map? round score) (of_ℕ 0))

  normalize_result-shown :
      (raw : Option String)
      → normalize_result raw ≡ or_default (map? shown_result raw) HeatmapResult.none
  unfolding normalize_result
  normalize_result-shown none = refl
  normalize_result-shown (some raw) = normalize_text-shown raw

  score_to_display-shown :
      (raw : Option Number) → score_to_display a raw ≡ or_default (map? round raw) (of_ℕ 0)
  unfolding score_to_display
  score_to_display-shown none = refl
  score_to_display-shown (some raw) = refl

  -- What is recorded of an evaluation as a whole: an invalidated one counts as such.
  abbrev pub recorded : SummaryCellDto Number → Option String
  recorded s = if s.invalidated then some "invalidated" else s.result

  summary_result-shown :
      (s : Option (SummaryCellDto Number))
      → summary_result a s ≡ or_default (map? shown_result (and_then s recorded)) HeatmapResult.none
  unfolding summary_result canonical_summary_result
  summary_result-shown none = refl
  summary_result-shown (some s) = elim (Bool-cases s.invalidated) [
    | inl h ↦ rw h refl
    | inr h ↦ rw h (normalize_result-shown s.result)
  ]

  indicator_result-shown :
      (s : Option (CellGroupedDto Number))
      → indicator_result a s
        ≡ or_default (map? shown_result (and_then s (λ c. c.result))) HeatmapResult.none
  unfolding indicator_result
  indicator_result-shown none = refl
  indicator_result-shown (some s) = normalize_result-shown s.result

  -- The last indicator cell of the evaluation and the metric.
  abbrev pub last_indicator :
      String → String → List (CellGroupedDto Number) → Option (CellGroupedDto Number)
  last_indicator e m [] = none
  last_indicator e m (c ∷ cells) =
      or_else (last_indicator e m cells)
        (if c.evaluation_id == e && c.metric == m then some c else none)

  -- The last summary of the evaluation.
  abbrev pub last_summary : String → List (SummaryCellDto Number) → Option (SummaryCellDto Number)
  last_summary e [] = none
  last_summary e (c ∷ cells) =
      or_else (last_summary e cells) (if c.evaluation_id == e then some c else none)

  abbrev HasPlainId : CellGroupedDto Number → Type 0
  HasPlainId c = IsNulFree c.evaluation_id

  find_last-indicators :
      (cells : List (CellGroupedDto Number)) (e m : String)
      → All HasPlainId cells
      → IsNulFree e
      → find_last (indicator_key e m) (map (λ c. (indicator_key c.evaluation_id c.metric, c)) cells)
        ≡ last_indicator e m cells
  unfolding find_last
  find_last-indicators [] e m h k = refl
  find_last-indicators (c ∷ cells) e m h k =
      rw (find_last-indicators cells e m h.1 k, key_test c.evaluation_id e c.metric m h.0 k)

  find_last-summaries :
      (cells : List (SummaryCellDto Number)) (e : String)
      → find_last e (map (λ c. (c.evaluation_id, c)) cells) ≡ last_summary e cells
  unfolding find_last
  find_last-summaries [] e = refl
  find_last-summaries (c ∷ cells) e = rw (find_last-summaries cells e)

  get-summaries_by_id :
      (cells : List (SummaryCellDto Number)) (e : String)
      → get (summaries_by_id a cells) e ≡ last_summary e cells
  get-summaries_by_id cells e = get-from_entries _ e ∙ find_last-summaries cells e

  get-indicators_by_key :
      (cells : List (CellGroupedDto Number)) (e m : String)
      → All HasPlainId cells
      → IsNulFree e
      → get (indicators_by_key a cells) (indicator_key e m) ≡ last_indicator e m cells
  get-indicators_by_key cells e m h k =
      get-from_entries _ (indicator_key e m) ∙ find_last-indicators cells e m h k

  -- The result and the score of a cell are those of the data for its own column and row.
  abbrev pub ShowsData : SloGroupDto Number → HeatmapEChartsCell Number → Type 0
  ShowsData group c = elim c.metric_name [
    | none ↦
        let cell = last_summary c.slot group.summary in
        Shows (and_then cell recorded) (and_then cell (λ s. s.score)) c
    | some m ↦
        let cell = last_indicator c.slot m group.cells in
        Shows (and_then cell (λ s. s.result)) (and_then cell (λ s. s.score)) c
  ]

  abbrev pub HasPlainColumn : EvaluationColumn → Type 0
  HasPlainColumn c = IsNulFree c.evaluation_id

  All-get_elem? :
      (columns : List EvaluationColumn) (k : ℕ) (c : EvaluationColumn)
      → All HasPlainColumn columns
      → get_elem? columns k ≡ some c
      → HasPlainColumn c
  All-get_elem? [] k c h e = cc
  All-get_elem? (x ∷ columns) zero c h e = let same : x ≡ c = cc in rw same at h.0
  All-get_elem? (x ∷ columns) (suc k) c h e = All-get_elem? columns k c h.1 e

  module _ (group : SloGroupDto Number) (columns : List EvaluationColumn)
      (plain_cells : All HasPlainId group.cells) (plain_columns : All HasPlainColumn columns) where
    display_row_cells-ShowsData :
        (y : ℕ) (label : String) (m : Option String)
        → All (ShowsData group) (
            display_row_cells a
              (summaries_by_id a group.summary)
              (indicators_by_key a group.cells)
              group.slo_name
              columns
              y
              label
              m)
    unfolding display_row_cells header_cell indicator_cell
    display_row_cells-ShowsData y label none =
        All-row_of a (ShowsData group)
          (header_cell a (summaries_by_id a group.summary) group.slo_name label y) 0 columns
          (λ k column c. rw (get-summaries_by_id group.summary column.evaluation_id) (
            summary_result-shown (last_summary column.evaluation_id group.summary),
            score_to_display-shown
                (and_then (last_summary column.evaluation_id group.summary) (λ s. s.score)),
          ))
    display_row_cells-ShowsData y label (some m) =
        All-row_of a (ShowsData group)
          (indicator_cell a (indicators_by_key a group.cells) group.slo_name label m y) 0 columns
          (λ k column c.
            rw
              (get-indicators_by_key group.cells column.evaluation_id m plain_cells
                (All-get_elem? columns k column plain_columns c))
              (
                indicator_result-shown (last_indicator column.evaluation_id m group.cells),
                score_to_display-shown
                    (and_then (last_indicator column.evaluation_id m group.cells) (λ s. s.score)),
              ))

    all_cells-ShowsData :
        (n i : ℕ) (rows : List DisplayRow)
        → All (ShowsData group) (
            all_cells a
              (summaries_by_id a group.summary)
              (indicators_by_key a group.cells)
              group.slo_name
              columns
              n
              i
              rows)
    unfolding all_cells
    all_cells-ShowsData n i [] = tt
    all_cells-ShowsData n i (row ∷ rows) =
        All-append (ShowsData group) _ _
          (display_row_cells-ShowsData (n - 1 - i) row.label row.metric_name)
          (all_cells-ShowsData n (suc i) rows)

    -- Where the evaluation ids hold no NUL, each cell of an SLO group's mini view shows the result
    -- and the score of its own evaluation: in the header row those of the last summary for it, an
    -- invalidated one as such, in a metric's row those of the last indicator for it and for that
    -- metric; the result by its name and else an error, the score rounded, and `none` and zero where
    -- there is no such data.
    pub slo_group_to_mini_view-ShowsData :
        (is_expanded : Bool)
        → All (ShowsData group) (slo_group_to_mini_view a group columns is_expanded).cells
    unfolding slo_group_to_mini_view
    slo_group_to_mini_view-ShowsData is_expanded =
        let rows =
          display_rows (or_default group.slo_display_name group.slo_name) is_expanded
            group.metrics in
        all_cells-ShowsData (length rows) 0 rows
