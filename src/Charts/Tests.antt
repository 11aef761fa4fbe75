-- ===== src/Charts/Tests.antt =====
-- The theorems about the charts at concrete inputs.
use tropek.Prelude.{
  map, ℕ, ◌*◌, ◌≤◌, String, ◌≡◌, refl, Bool, true, false, some, List, [], ◌∷◌, arith, length, All,
}
use tropek.Charts.Labels.{PackItem, try_pack}
use tropek.Charts.Labels.Text.{
  max_label_width_px, estimate_label_width, candidate_fits, clip_label_text, escape_html,
}
use tropek.Charts.Labels.Text.Clip.{clip_label_text-fits}
use tropek.Charts.Labels.Text.Escape.{is_markup, escape_html-plain}
use tropek.Charts.Labels.Notes.{Note, NoteAnnotationsResult, build_note_annotations}
use tropek.Charts.Labels.Notes.Counts.{labelled, IsWithin, build_note_annotations_lem}
use tropek.Charts.Tooltip.Page.{
  Event, shown, gone, unmounted, run, start, step, IsGuarded, run-start-IsGuarded, run-start-hidden,
}

abbrev history : List Event
history = shown 1 10 ∷ shown 2 20 ∷ unmounted 1 ∷ []

run-start-IsGuarded_example : IsGuarded (run start history)
run-start-IsGuarded_example = run-start-IsGuarded history

abbrev second : ℕ
second = 2

run-start-hidden_example : (step (run start history) gone).visible 2 ≡ false
run-start-hidden_example = run-start-hidden history gone 2 tt

abbrev items : List PackItem
items =
    (record { pixel_x = 100; label_width = 20 })
    ∷ (record { pixel_x = 130; label_width = 20 })
    ∷ (record { pixel_x = 170; label_width = 20 })
    ∷ []

-- Two rows do for three labels of which two are too close.
two_rows : try_pack 1 items 2 ≡ some (0 ∷ 1 ∷ 0 ∷ [])
unfolding try_pack
two_rows = refl

-- Six pixels for each unit.
abbrev six_px : List ℕ → ℕ
six_px text = 6 * length text

abbrev long_text : List ℕ
long_text =
    97 ∷ 98 ∷ 99 ∷ 100 ∷ 101 ∷ 102 ∷ 103 ∷ 32 ∷ 97 ∷ 98 ∷ 99 ∷ 100 ∷ 101 ∷ 102 ∷ 103 ∷ 32 ∷ 97 ∷ 98
    ∷ 99 ∷ 100 ∷ 101 ∷ 102 ∷ 103 ∷ 32 ∷ 97 ∷ 98 ∷ 99 ∷ 100 ∷ 101 ∷ 102 ∷ 103 ∷ 32 ∷ []

clip_label_text-fits_example :
    (label : List ℕ) × (clip_label_text six_px long_text ≡ some label)
    × (estimate_label_width six_px label ≤ max_label_width_px)
unfolding candidate_fits
clip_label_text-fits_example = clip_label_text-fits six_px long_text refl

escape_html-plain_example :
    All (λ c. is_markup c ≡ false) (escape_html (60 ∷ 98 ∷ 62 ∷ 38 ∷ 34 ∷ 39 ∷ []))
escape_html-plain_example = escape_html-plain (60 ∷ 98 ∷ 62 ∷ 38 ∷ 34 ∷ 39 ∷ [])

abbrev note : Note
note = record {
  content = 120 ∷ 121 ∷ [];
  category = record { name = "deploy"; label = 68 ∷ []; color = "sky"; show_on_graph = true };
}

-- Every order of texts will do.
abbrev any_order : String → String → Bool
any_order s t = true

build_note_annotations_lem_example :
    (r : NoteAnnotationsResult) × (build_note_annotations six_px any_order
        ("e" ∷ "f" ∷ [])
        (("f", note ∷ note ∷ []) ∷ [])
        200
      ≡ some r)
    × (map (λ l. l.x_axis) r.mark_line
        ≡ map (λ p. p.0) (labelled (("f", note ∷ note ∷ []) ∷ []) 0 ("e" ∷ "f" ∷ [])))
    × (map (λ p. p.eval_id) r.mark_point
        ≡ map (λ p. p.1) (labelled (("f", note ∷ note ∷ []) ∷ []) 0 ("e" ∷ "f" ∷ [])))
    × All (IsWithin r.label_band_px) r.mark_point
build_note_annotations_lem_example =
    build_note_annotations_lem six_px any_order ("e" ∷ "f" ∷ []) (("f", note ∷ note ∷ []) ∷ []) 200
      (ground arith)
