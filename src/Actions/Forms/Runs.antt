-- ===== src/Actions/Forms/Runs.antt =====
-- A run of OverrideForm.tsx of ui/src/features/evaluations/components/actions, from the button to the
-- rows.
use tropek.Prelude.{String, not, Option, none, some, List, [], map, or_default, filter}
use tropek.Evaluations.Inputs.{OverridableOutcome}
use tropek.Actions.Scope.{SloScopeOption}
use tropek.Actions.Batch.{RowResult, Answer}
use tropek.Actions.Forms.{Form, at_target, finish}

abbrev pub names_of : List RowResult → List String
names_of rows = map (λ row. row.slo_name) rows

-- The form when the action is over: at once where nothing is sent, and with the answer otherwise.
abbrev pub over : {N : Type 0} → Answer N → Option (List String) × Form → Form
over answer (none, form) = form
over answer (some ids, form) = finish answer form

abbrev pub sent_ids : Option (List String) → List String
sent_ids request = or_default request []

module _ (target : OverridableOutcome) (options : List SloScopeOption)
    (selected : List String) where
  abbrev pub skipped_names : List String
  skipped_names = filter (at_target target options) selected

  abbrev pub applied_names : List String
  applied_names = filter (λ name. not (at_target target options name)) selected
