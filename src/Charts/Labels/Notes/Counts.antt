-- ===== src/Charts/Labels/Notes/Counts.antt =====
-- How many labels `buildNoteAnnotations` makes, and where it puts them.
use tropek.Prelude.{
  ap, true, false, Bool, any, filter, or_default, ℕ, zero, suc, ◌+◌, ◌/◌, ◌≤◌, ◌<◌, String, ◌≡◌,
  refl, ◌∙◌, inl, inr, Bool, false, Option, some, List, [], ◌∷◌, ◌++◌, map, arith, ltb, leb,
  if◌then◌else◌, Bool-cases, map?, length, All, length-map,
}
use tropek.Js.Map.{Map, get}
use tropek.Charts.Labels.{
  gaps, grid_left_px, grid_right_px, label_row_y, label_row_height_px, band_px_for_rows,
  label_band_bottom_pad_px, pack_rows,
}
use tropek.Charts.Labels.Text.{clip_label_text, estimate_label_width, candidate_fits, clipped}
use tropek.Charts.Labels.Packing.Rows.{pack_rows-IsFull}
use tropek.Charts.Labels.Text.Clip.{longest_prefix_lem}
use tropek.Charts.Labels.Notes.{
  Note, PreparedLabel, MarkPoint, NoteAnnotationsResult, visible_notes, mark_line_item,
  mark_point_item, mark_points, rows_used, pack_item, build_marks, prepare_label, prepare_point,
  prepare_from, build_note_annotations, raw_label_text,
}

-- A note of the evaluation is shown on the graph.
abbrev has_shown_note : Map (List Note) → String → Bool
has_shown_note annotations eval_id =
    any (λ note. note.category.show_on_graph) (or_default (get annotations eval_id) [])

-- The points that have a note to show, from index `i` on: each with its index and its evaluation.
abbrev pub labelled : Map (List Note) → ℕ → List String → List (ℕ × String)
labelled annotations i [] = []
labelled annotations i (eval_id ∷ eval_ids) =
    let later = labelled annotations (suc i) eval_ids in
    if has_shown_note annotations eval_id then (i, eval_id) ∷ later else later

abbrev point_of : PreparedLabel → ℕ × String
point_of label = (label.index, label.eval_id)

lines-x_axis :
    (labels : List PreparedLabel)
    → map (λ l. l.x_axis) (map mark_line_item labels) ≡ map (λ p. p.0) (map point_of labels)
unfolding mark_line_item
lines-x_axis [] = refl
lines-x_axis (l ∷ labels) = ap (l.index ∷◌) (lines-x_axis labels)

points-eval_id :
    (labels : List PreparedLabel) (rows : List ℕ)
    → length rows ≡ length labels
    → map (λ p. p.eval_id) (mark_points labels rows) ≡ map (λ p. p.1) (map point_of labels)
unfolding mark_points mark_point_item
points-eval_id [] rows h = refl
points-eval_id (l ∷ labels) [] h = ground (arith, h)
points-eval_id (l ∷ labels) (row ∷ rows) h =
    ap (l.eval_id ∷◌) (points-eval_id labels rows (ground (arith, h)))

any-filter :
    (notes : List Note)
    → ltb 0 (length (filter (λ a. a.category.show_on_graph) notes))
      ≡ any (λ a. a.category.show_on_graph) notes
any-filter [] = refl
any-filter (a ∷ notes) = ground (arith, any-filter notes)

band-above :
    (row used : ℕ)
    → row < used
    → label_row_y row + label_row_height_px / 2 + label_band_bottom_pad_px ≤ band_px_for_rows used
unfolding band_px_for_rows
band-above row zero h = elim h [ ]
band-above row (suc last) h = ground (arith, h)

abbrev pub IsWithin : ℕ → MarkPoint → Type 0
IsWithin band p = p.y + label_band_bottom_pad_px ≤ band

mark_points-IsWithin :
    (entries : List PreparedLabel) (rows : List ℕ) (used : ℕ)
    → rows_used rows ≤ used
    → All (IsWithin (band_px_for_rows used)) (mark_points entries rows)
unfolding mark_points rows_used mark_point_item
mark_points-IsWithin [] rows used h = tt
mark_points-IsWithin (entry ∷ entries) [] used h = tt
mark_points-IsWithin (entry ∷ entries) (row ∷ rows) used h =
    (band-above row used (omega arith), mark_points-IsWithin entries rows used (omega arith))

map?_total :
    {A B : Type 0} (f : A → B) (o : Option A) (a : A) → o ≡ some a → (b : B) × (map? f o ≡ some b)
map?_total f o a e = (f a, rw e refl)

module _ (text_px : List ℕ → ℕ) (locale_le : String → String → Bool) where
  clip_label_text_total :
      (text : List ℕ) → (label : List ℕ) × (clip_label_text text_px text ≡ some label)
  unfolding clip_label_text
  clip_label_text_total text = elim (Bool-cases (leb (estimate_label_width text_px text) 160)) [
    | inl short ↦ (text, rw short refl)
    | inr long ↦
        let (n, e, edge) =
          longest_prefix_lem (candidate_fits text_px text) (length text) 1 (length text)
            (omega arith) in
        (clipped text n, rw (long, e) refl)
  ]

  prepare_label_total :
      (i n w : ℕ) (eval_id : String) (primary : Note) (notes : List Note)
      → (label : PreparedLabel) × (prepare_label text_px locale_le i n w eval_id primary notes
          ≡ some label)
        × (point_of label ≡ (i, eval_id))
  unfolding prepare_label
  prepare_label_total i n w eval_id primary notes =
      let (text, e) = clip_label_text_total (raw_label_text primary notes) in
      (_, ap (map? _) e, refl)

  prepare_point_total :
      (i n w : ℕ) (eval_id : String) (notes : List Note)
      → (labels : List PreparedLabel) × (prepare_point text_px locale_le i n w eval_id notes
          ≡ some labels)
        × (map point_of labels ≡ (if ltb 0 (length notes) then (i, eval_id) ∷ [] else []))
  unfolding prepare_point
  prepare_point_total i n w eval_id [] = ([], refl, refl)
  prepare_point_total i n w eval_id (primary ∷ notes) =
      let (label, e, at) = prepare_label_total i n w eval_id primary notes in
      let some_note : ltb 0 (length (primary ∷ notes)) ≡ true = ground arith in
      (label ∷ [], rw e refl, rw some_note (ap (λ p. p ∷ []) at))

  map-append :
      (xs ys : List PreparedLabel) → map point_of (xs ++ ys) ≡ map point_of xs ++ map point_of ys
  map-append [] ys = refl
  map-append (x ∷ xs) ys = ap (point_of x ∷◌) (map-append xs ys)

  prepare_from_total :
      (i n w : ℕ) (annotations : Map (List Note)) (eval_ids : List String)
      → (labels : List PreparedLabel) × (prepare_from text_px locale_le i n w annotations eval_ids
          ≡ some labels)
        × (map point_of labels ≡ labelled annotations i eval_ids)
  unfolding prepare_from visible_notes
  prepare_from_total i n w annotations [] = ([], refl, refl)
  prepare_from_total i n w annotations (eval_id ∷ eval_ids) =
      let notes = or_default (get annotations eval_id) [] in
      let (first, e, at) = prepare_point_total i n w eval_id (visible_notes annotations eval_id) in
      let (later, f, ats) = prepare_from_total (suc i) n w annotations eval_ids in
      (
        first ++ later,
        rw (e, f) refl,
        map-append first later
            ∙ rw (at, ats, any-filter notes)
                (elim (Bool-cases (has_shown_note annotations eval_id)) [
                  | inl h ↦ rw h refl
                  | inr h ↦ rw h refl
                ]),
      )

  -- On a chart wider than its margins `buildNoteAnnotations` ends with one line, at its index, and
  -- one label, of its evaluation, for each point that has a note to show, in order, and the band above the plot reaches at least the padding
  -- below the middle of every label.
  pub build_note_annotations_lem :
      (trend_points : List String) (annotations : Map (List Note)) (chart_width : ℕ)
      → grid_left_px + grid_right_px < chart_width
      → (r : NoteAnnotationsResult) × (build_note_annotations text_px locale_le trend_points
            annotations chart_width
          ≡ some r)
        × (map (λ l. l.x_axis) r.mark_line ≡ map (λ p. p.0) (labelled annotations 0 trend_points))
        × (map (λ p. p.eval_id) r.mark_point ≡ map (λ p. p.1) (labelled annotations 0 trend_points))
        × All (IsWithin r.label_band_px) r.mark_point
  unfolding build_note_annotations build_marks
  build_note_annotations_lem trend_points annotations chart_width wide =
      let unit = gaps (length trend_points) in
      let (prepared, e, count) =
        prepare_from_total 0 (length trend_points) chart_width annotations trend_points in
      let items = map pack_item prepared in
      let (full, bound) = pack_rows-IsFull unit items in
      let narrow : leb chart_width (grid_left_px + grid_right_px) ≡ false = ground arith in
      (
        build_marks unit prepared,
        rw (narrow, e) refl,
        lines-x_axis prepared ∙ ap (map (λ p. p.0)) count,
        points-eval_id prepared (pack_rows unit items) (full ∙ length-map prepared pack_item)
            ∙ ap (map (λ p. p.1)) count,
        mark_points-IsWithin prepared (pack_rows unit items) (rows_used (pack_rows unit items))
            (omega arith),
      )
