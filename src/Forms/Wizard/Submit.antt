-- ===== src/Forms/Wizard/Submit.antt =====
-- What the wizard of features/registry/forms/SloWizard.tsx sends.
use tropek.Prelude.{
  Option, none, find, ℕ, String, ◌≡◌, refl, false, not, ◌&&◌, some, List, [], ◌∷◌, arith, ◌==◌, ltb,
  length, filter, any, All,
}
use tropek.Js.Number.{NumberText}
use tropek.Js.Trim.{trim}
use tropek.Entities.Slos.{Slo, SloObjective}
use tropek.Forms.Criteria.{CriteriaParts, default_criteria, parse_criteria, serialize_criteria}
use tropek.Forms.Rows.{IndicatorRow}
use tropek.Forms.Rows.Filled.{IsFilled}
use tropek.Forms.Wizard.{
  SloCreateInput, Wizard, ObjectiveInput, unless_empty, checked_rows, is_valid,
}

module _ (numbers : NumberText) where
  abbrev N : Type 0
  N = numbers.Number

  -- A text that serializeCriteria writes for the criteria that parseCriteria reads in it.
  abbrev pub IsWritten : String → Type 0
  IsWritten text =
      (parts : CriteriaParts N) × (parse_criteria numbers text ≡ some parts)
      × (serialize_criteria numbers parts ≡ text)

  abbrev pub IsWrittenObjective : SloObjective N → Type 0
  IsWrittenObjective o = All IsWritten o.pass_threshold × All IsWritten o.warning_threshold

  -- The criteria as they come back: one of the form's own where there are none.
  abbrev pub resent : List String → List String
  resent [] = serialize_criteria numbers (default_criteria numbers) ∷ []
  resent (t ∷ ts) = t ∷ ts

  abbrev pub resent_objective : ℕ → SloObjective N → ObjectiveInput N
  resent_objective index o = record {
    sli = o.sli;
    display_name = o.sli;
    pass_threshold = resent o.pass_threshold;
    warning_threshold = resent o.warning_threshold;
    weight = o.weight;
    key_sli = o.key_sli;
    sort_order = numbers.of_ℕ index;
  }

  -- The objectives in the order of the indicators of the SLI: for each the first with its name.
  abbrev add_objective : Option (SloObjective N) → List (SloObjective N) → List (SloObjective N)
  add_objective none os = os
  add_objective (some o) os = o ∷ os

  abbrev pub in_order : List String → List (SloObjective N) → List (SloObjective N)
  in_order [] os = []
  in_order (name ∷ names) os = add_objective (find (λ o. o.sli == name) os) (in_order names os)

  -- What is sent of the SLO apart from its objectives.
  abbrev pub SendsRest : {D : Type 0} → Slo N D → SloCreateInput N → Type 0
  SendsRest slo sent =
      (sent.name ≡ slo.name)
      × (sent.tags ≡ unless_empty slo.tags)
      × (sent.variables ≡ unless_empty slo.variables)
      × (sent.total_score_pass_threshold ≡ slo.total_score_pass_threshold)
      × (sent.total_score_warning_threshold ≡ slo.total_score_warning_threshold)

  any-checked :
      (rows : List (IndicatorRow N))
      → ltb 0 (length (filter (λ r. r.checked) rows)) ≡ any (λ r. r.checked) rows
  any-checked [] = refl
  any-checked (r ∷ rows) = ground (arith, any-checked rows)

  none-unfilled :
      (rows : List (IndicatorRow N))
      → All (IsFilled numbers) rows
      → any (λ r. not (ltb 0 (length r.pass_criteria))) (filter (λ r. r.checked) rows) ≡ false
  none-unfilled [] h = refl
  none-unfilled (r ∷ rows) h = ground (arith, h.0.0, none-unfilled rows h.1)

  -- Where every row has criteria to pass, the form can be sent exactly when the SLO has a name
  -- that is not blank and an indicator is checked.
  pub is_valid-IsFilled :
      (w : Wizard N)
      → All (IsFilled numbers) w.indicator_rows
      → is_valid numbers w
        ≡ (not (trim w.identity.name == "") && any (λ r. r.checked) w.indicator_rows)
  unfolding is_valid checked_rows
  is_valid-IsFilled w filled =
      rw (any-checked w.indicator_rows, none-unfilled w.indicator_rows filled) (ground arith)
