-- ===== src/Forms/Comparison.antt =====
-- The comparison settings: the handlers and bars of
-- features/registry/forms/WizardStepComparison.tsx, with scores that are whole numbers.
use tropek.Prelude.{ℕ, String, eqb, if◌then◌else◌, map_from, min, max}
use tropek.Forms.Tags.{TagRow}
use tropek.Forms.Wizard.{ComparisonData}

abbrev pub edit_key : String → TagRow → TagRow
edit_key text row = record row { key = text }

abbrev pub edit_value : String → TagRow → TagRow
edit_value text row = record row { value = text }

unfoldable pub update_tag :
    {N : Type 0} → ℕ → (TagRow → TagRow) → ComparisonData N → ComparisonData N
update_tag index field settings = record settings {
  tags = map_from 0 (λ i t. if eqb i index then field t else t) settings.tags;
}

unfoldable pub update_variable :
    {N : Type 0} → ℕ → (TagRow → TagRow) → ComparisonData N → ComparisonData N
update_variable index field settings = record settings {
  variables = map_from 0 (λ i t. if eqb i index then field t else t) settings.variables;
}

unfoldable pub pass_pct : ComparisonData ℕ → ℕ
pass_pct settings = max 0 (min 100 settings.pass_threshold)

unfoldable pub warn_pct : ComparisonData ℕ → ℕ
unfolding pass_pct
warn_pct settings = max 0 (min (pass_pct settings) settings.warn_criteria)
