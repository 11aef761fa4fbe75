-- ===== src/Evaluations/Requests/Laws.antt =====
-- What a request for a re-evaluation says of its input.
use tropek.Prelude.{sym, ◌∙◌, String, ◌≡◌, refl, ap, Option, none, some, List, [], ◌∷◌, or_default}
use tropek.Js.Text.Join.{append_cancel}
use tropek.Evaluations.Requests.{
  ReEvaluateMode, ReEvaluateInput, PinStrategy, ReEvaluateSelector, endpoint_of, body_kind,
  build_scope, build_selector, re_evaluate_input_to_dto, select, select_names,
}

-- The mode and, for the baseline, the pin strategy.
abbrev pub meant : ReEvaluateMode → Option PinStrategy → ReEvaluateMode × Option PinStrategy
meant ReEvaluateMode.baseline pin_strategy = (ReEvaluateMode.baseline, pin_strategy)
meant mode pin_strategy = (mode, none)

mode_injective :
    (m n : ReEvaluateMode) (p q : Option PinStrategy)
    → endpoint_of m ≡ endpoint_of n
    → body_kind m p ≡ body_kind n q
    → meant m p ≡ meant n q
unfolding endpoint_of body_kind
mode_injective ReEvaluateMode.baseline ReEvaluateMode.baseline p q e h = cc
mode_injective ReEvaluateMode.baseline (ReEvaluateMode.date d) p q e h = cc
mode_injective ReEvaluateMode.baseline (ReEvaluateMode.evaluation i) p q e h = cc
mode_injective (ReEvaluateMode.date d) ReEvaluateMode.baseline p q e h = cc
mode_injective (ReEvaluateMode.date d) (ReEvaluateMode.date d') p q e h = cc
mode_injective (ReEvaluateMode.date d) (ReEvaluateMode.evaluation i) p q e h = cc
mode_injective (ReEvaluateMode.evaluation i) ReEvaluateMode.baseline p q e h = cc
mode_injective (ReEvaluateMode.evaluation i) (ReEvaluateMode.date d) p q e h = cc
mode_injective (ReEvaluateMode.evaluation i) (ReEvaluateMode.evaluation j) p q e h =
    let same = append_cancel "/evaluations/re-evaluate/from-evaluation/" i j e in cc same

-- The SLOs that are asked for: one by its name, or the given names; none of them for all.
abbrev asked_of : Option String → Option (List String) → Option String × List String
asked_of (some slo_name) slo_names = (some slo_name, [])
asked_of none slo_names = (none, or_default slo_names [])

abbrev pub asked : {N : Type 0} → ReEvaluateInput N → Option String × List String
asked i = asked_of i.slo_name i.slo_names

read_selector : ReEvaluateSelector → Option String × List String
read_selector (ReEvaluateSelector.slo name) = (some name, [])
read_selector (ReEvaluateSelector.evaluation_names names) = (none, names)
read_selector ReEvaluateSelector.everything = (none, [])

read_selector-select :
    (slo_name : Option String) (slo_names : Option (List String))
    → read_selector (select slo_name slo_names) ≡ asked_of slo_name slo_names
unfolding read_selector select select_names
read_selector-select (some name) names = refl
read_selector-select none none = refl
read_selector-select none (some []) = refl
read_selector-select none (some (name ∷ names)) = refl

select_injective :
    {N : Type 0} (i j : ReEvaluateInput N) → build_selector i ≡ build_selector j → asked i ≡ asked j
unfolding build_selector
select_injective i j e =
    sym (read_selector-select i.slo_name i.slo_names)
    ∙ ap read_selector e
    ∙ read_selector-select j.slo_name j.slo_names

-- Two inputs that become one request ask for one thing: the same asset, the same one SLO or else the
-- same names of SLOs (with none of them for all SLOs), the same version and dry run,
-- the same mode and, for the baseline, the same pin strategy.
pub re_evaluate_input_to_dto_injective :
    {N : Type 0} (i j : ReEvaluateInput N)
    → re_evaluate_input_to_dto i ≡ re_evaluate_input_to_dto j
    → (i.asset_name ≡ j.asset_name)
      × (asked i ≡ asked j)
      × (i.slo_version ≡ j.slo_version)
      × (i.dry_run ≡ j.dry_run)
      × (meant i.mode i.pin_strategy ≡ meant j.mode j.pin_strategy)
unfolding re_evaluate_input_to_dto build_scope
re_evaluate_input_to_dto_injective i j e = (
  ap (λ d. d.request_body.scope.asset_name) e,
  select_injective i j (ap (λ d. d.request_body.selector) e),
  ap (λ d. d.request_body.slo_version) e,
  ap (λ d. d.request_body.dry_run) e,
  mode_injective i.mode j.mode i.pin_strategy j.pin_strategy (ap (λ d. d.endpoint) e)
      (ap (λ d. d.request_body.kind) e),
)
