-- ===== src/Forms/Wizard/Merge.antt =====
-- The rows of the indicators after an SLI is picked or fetched:
-- features/registry/forms/SloWizard.tsx.
use tropek.Prelude.{String, Option, none, some, List, ◌==◌, if◌then◌else◌, or_default, find}
use tropek.Js.Map.{contains}
use tropek.Js.Number.{NumberText}
use tropek.Forms.Rows.{IndicatorRow}
use tropek.Forms.Wizard.{Wizard, new_row}

module _ (numbers : NumberText) where
  abbrev Row : Type 0
  Row = IndicatorRow numbers.Number

  abbrev pub row_named : String → List Row → Option Row
  row_named name rows = find (λ r. r.sli == name) rows

  kept_or_new : List Row → String → Row
  kept_or_new prev name = or_default (row_named name prev) (new_row numbers name)

  -- For each of the names the row that was there before, as it was, or a new one, and no other row.
  abbrev pub kept_or_added : List String → List Row → String → Option Row
  kept_or_added names prev name =
      if contains name names
      then some (or_default (row_named name prev) (new_row numbers name))
      else none
