-- ===== src/Actions/ReEvaluate/Pins.antt =====
-- What the form of a re-evaluation asks for, and its choices on a conflict with a pin:
-- ReEvaluateForm.tsx of ui/src/features/evaluations/components/actions with reEvaluateInputToDto.
use tropek.Prelude.{
  String, ◌≡◌, refl, inl, inr, true, false, not, ◌||◌, Option, none, some, List, [], ◌∷◌, arith,
  ◌==◌, ltb, Bool-cases, Option-cases, map?, length,
}
use tropek.Evaluations.Requests.{
  ReEvaluateMode, PinStrategy, ReEvaluateInput, ReEvaluateSelector, ReEvaluateDto, build_selector,
  re_evaluate_input_to_dto, select, select_names, body_kind,
}
use tropek.Actions.ReEvaluate.{ReEvaluation, can_run, mode_of, submit_re_eval, confirm_run}

select_names-given :
    (names : List String)
    → ltb 0 (length names) ≡ true
    → select_names (some names) ≡ ReEvaluateSelector.evaluation_names names
unfolding select_names
select_names-given [] h = ground (arith, h)
select_names-given (n ∷ names) h = refl

can_run-selected :
    {N : Type 0} (selected : List String) (form : ReEvaluation N)
    → can_run selected form ≡ true
    → ltb 0 (length selected) ≡ true
unfolding can_run
can_run-selected selected form h = elim (Bool-cases (ltb 0 (length selected))) [
  | inl e ↦ e
  | inr e ↦ elim (Bool-cases (form.from_baseline || not (form.from_date == ""))) [
    | inl f ↦ ground (arith, e, f, h)
    | inr f ↦ ground (arith, e, f, h)
  ]
]

module _ {N : Type 0} (to_iso : String → Option String) (asset_name : String) where
  -- The request that a step of the form sends.
  abbrev pub request : Option (ReEvaluateInput N) × ReEvaluation N → Option (ReEvaluateDto N)
  request (input, form) = map? re_evaluate_input_to_dto input

  -- A run that is confirmed, with a date that can be read or from the baseline, sends a request for
  -- exactly the selected SLOs, never for all SLOs of the asset, and takes away the conflict that the
  -- form has shown so far.
  pub confirm_run-selected :
      (selected : List String) (form : ReEvaluation N) (mode : ReEvaluateMode)
      → can_run selected form ≡ true
      → mode_of to_iso asset_name form ≡ some mode
      → (input : ReEvaluateInput N) × ((confirm_run to_iso asset_name selected form).0 ≡ some input)
        × (build_selector input ≡ ReEvaluateSelector.evaluation_names selected)
        × ((confirm_run to_iso asset_name selected form).1.pin_conflict ≡ none)
  unfolding confirm_run submit_re_eval build_selector select
  confirm_run-selected selected form mode h k = (
    record {
      asset_name = asset_name;
      slo_name = none;
      slo_names = some selected;
      mode = mode;
      slo_version = none;
      dry_run = false;
      pin_strategy = none;
    },
    rw (h, k) refl,
    select_names-given selected (can_run-selected selected form h),
    rw h refl,
  )

  -- From a date, the choice of what to do about a pin does not reach the request: it is the one that
  -- is sent with no choice.
  pub submit_re_eval-pin_strategy :
      (selected : List String) (form : ReEvaluation N) (p q : Option PinStrategy)
      → form.from_baseline ≡ false
      → request (submit_re_eval to_iso asset_name selected p form)
        ≡ request (submit_re_eval to_iso asset_name selected q form)
  unfolding submit_re_eval mode_of re_evaluate_input_to_dto body_kind build_selector
  submit_re_eval-pin_strategy selected form p q h = elim (Option-cases (to_iso form.from_date)) [
    | inl e ↦ rw (h, e) refl
    | inr (since, e) ↦ rw (h, e) refl
  ]
