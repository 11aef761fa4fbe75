-- ===== src/Actions/Scope/Options.antt =====
-- Where the options of a scope come from: slo-scope/useSloScope.ts of
-- ui/src/features/evaluations/components/actions.
use tropek.Prelude.{
  String, ◌≡◌, refl, sym, ap, ◌∙◌, ◌⊎◌, inl, inr, Bool, true, Option, none, some, List, [], ◌∷◌,
  arith, ◌==◌, eq_iff, Bool-cases, Option-cases, or_default, filter, find, All, Any,
}
use mathlib.Core.Option.{some_inj}
use mathlib.Core.Path.{subst}
use tropek.Results.{Outcome, HeatmapResult, to_heatmap_result}
use tropek.Actions.Scope.{
  SummaryCell, IndicatorCell, ScopeGroup, SloScopeOption, SloScopeFilter,
  outcome_from_heatmap_result, passes_filter, option_of, push_option, options_of,
}

find-Any :
    {A : Type 0} (p : A → Bool) (P : A → Type 0) (xs : List A) (x : A)
    → find p xs ≡ some x
    → (p x ≡ true → P x)
    → Any P xs
find-Any p P [] x e k = ground (arith, e)
find-Any p P (y ∷ xs) x e k = elim (Bool-cases (p y)) [
  | inl h ↦
      let same : y ≡ x = some_inj.0 (rw h at e) in
      inl (subst P (sym same) (k (ap p (sym same) ∙ h)))
  | inr h ↦ inr (find-Any p P xs x (rw h at e) k)
]

to_heatmap_result-outcome :
    (r : HeatmapResult) (o : Outcome)
    → outcome_from_heatmap_result r ≡ some o
    → r ≡ to_heatmap_result o
unfolding outcome_from_heatmap_result
to_heatmap_result-outcome HeatmapResult.pass o e = ap to_heatmap_result (some_inj.0 e)
to_heatmap_result-outcome HeatmapResult.warning o e = ap to_heatmap_result (some_inj.0 e)
to_heatmap_result-outcome HeatmapResult.fail o e = ap to_heatmap_result (some_inj.0 e)
to_heatmap_result-outcome HeatmapResult.error o e = ap to_heatmap_result (some_inj.0 e)
to_heatmap_result-outcome HeatmapResult.invalidated o e = ap to_heatmap_result (some_inj.0 e)
to_heatmap_result-outcome HeatmapResult.none o e = ground (arith, e)

-- The option shows the result that the group has in the column, and carries the id of an
-- evaluation that the group has there.
abbrev pub IsFound : String → SloScopeFilter → SloScopeOption → ScopeGroup → Type 0
IsFound column filter o group =
    (o.slo_name ≡ group.slo_name)
    × Any
        (λ cell. (cell.evaluation_id ≡ column) × (cell.result ≡ to_heatmap_result o.current_result))
        group.summary
    × Any (λ cell. (cell.evaluation_id ≡ column) × (cell.slo_evaluation_id ≡ o.slo_evaluation_id))
        group.cells
    × (passes_filter filter o.current_result ≡ true)

abbrev option_for : ScopeGroup → Outcome → IndicatorCell → SloScopeOption
option_for group outcome cell = record {
  slo_name = group.slo_name;
  display_name = or_default group.slo_display_name group.slo_name;
  slo_evaluation_id = cell.slo_evaluation_id;
  current_result = outcome;
}

option_for-IsFound :
    (column : String) (filter : SloScopeFilter) (group : ScopeGroup) (summary : SummaryCell)
    (outcome : Outcome) (cell : IndicatorCell)
    → find (λ c. c.evaluation_id == column) group.summary ≡ some summary
    → outcome_from_heatmap_result summary.result ≡ some outcome
    → find (λ c. c.evaluation_id == column) group.cells ≡ some cell
    → passes_filter filter outcome ≡ true
    → IsFound column filter (option_for group outcome cell) group
option_for-IsFound column filter group summary outcome cell h k c f = (
  refl,
  find-Any _ _ group.summary summary h
      (λ e. ((eq_iff _ _).0 e, to_heatmap_result-outcome summary.result outcome k)),
  find-Any _ _ group.cells cell c (λ e. ((eq_iff _ _).0 e, refl)),
  f,
)

option_of-IsFound :
    (column : String) (filter : SloScopeFilter) (group : ScopeGroup) (o : SloScopeOption)
    → option_of column filter group ≡ some o
    → IsFound column filter o group
unfolding option_of
option_of-IsFound column filter group o e =
    elim (Option-cases (find (λ cell. cell.evaluation_id == column) group.summary)) [
      | inl h ↦ ground (arith, h, e)
      | inr (summary, h) ↦ elim (Option-cases (outcome_from_heatmap_result summary.result)) [
        | inl k ↦ ground (arith, h, k, e)
        | inr (outcome, k) ↦ elim (Bool-cases (passes_filter filter outcome)) [
          | inr f ↦ ground (arith, h, k, f, e)
          | inl f ↦ elim (Option-cases (find (λ cell. cell.evaluation_id == column) group.cells)) [
            | inl c ↦ ground (arith, h, k, f, c, e)
            | inr (cell, c) ↦
                subst (λ o. IsFound column filter o group) (some_inj.0 (rw (h, k, f, c) at e))
                  (option_for-IsFound column filter group summary outcome cell h k c f)
          ]
        ]
      ]
    ]

All-inr : {A : Type 0} (P Q : A → Type 0) (xs : List A) → All Q xs → All (λ x. P x ⊎ Q x) xs
All-inr P Q [] hs = tt
All-inr P Q (x ∷ xs) (h, hs) = (inr h, All-inr P Q xs hs)

push_option-All :
    {P : SloScopeOption → Type 0} (option : Option SloScopeOption) (options : List SloScopeOption)
    → ((o : SloScopeOption) → option ≡ some o → P o)
    → All P options
    → All P (push_option option options)
push_option-All none options h hs = hs
push_option-All (some o) options h hs = (h o refl, hs)

-- Every option stands for a group of the heatmap: it shows the group's result in the column, which
-- passes the filter, and has the id of one of the group's evaluations there.
pub options_of-IsFound :
    (column : String) (filter : SloScopeFilter) (groups : List ScopeGroup)
    → All (λ o. Any (IsFound column filter o) groups) (options_of column filter groups)
unfolding options_of
options_of-IsFound column filter [] = tt
options_of-IsFound column filter (g ∷ groups) =
    push_option-All (option_of column filter g) (options_of column filter groups)
      (λ o e. inl (option_of-IsFound column filter g o e))
      (All-inr _ _ (options_of column filter groups) (options_of-IsFound column filter groups))
