-- ===== src/Charts/Labels/Notes.antt =====
-- lib/chartAnnotations.ts: the notes of a trend become labels and lines (prepareLabels and
-- buildNoteAnnotations). The palette's colours, which `resolveCssVar` asks of the browser, stand as
-- the name of the colour; of the marks, the constant fields of their style are left out.
pub mod Counts
use tropek.Prelude.{
  ℕ, zero, suc, ◌+◌, ◌-◌, ◌*◌, ◌/◌, ◌%◌, ◌≤◌, ◌<◌, String, ◌≡◌, refl, sym, ap, ◌∙◌, ◌≢◌, ◌↔◌, ◌⊎◌,
  inl, inr, Bool, true, false, not, ◌&&◌, ◌||◌, Option, none, some, List, [], ◌∷◌, ◌++◌, map,
  reverse, arith, ◌==◌, eq_iff, eq_refl, ltb, leb, eqb, if◌then◌else◌, Bool-cases, Bool_ext,
  Option-cases, or_default, or_else, and_then, map?, is_some, length, get_elem?, filter, find, any,
  All, Any, length-append, length-map, length-reverse, get_elem?-append_left,
  get_elem?-append_length, get_elem?-reverse, get_elem?-map, All-append, ltb→lt, lt→ltb, leb→le,
  eqb→eq, eqb_refl, tests, min, max,
}
use tropek.Js.Map.{
  contains, IsDistinct, Map, keys, get, set, set_all, from_entries, find_last, get-set,
  get-from_entries, contains-keys-set, keys-set-IsDistinct, contains-keys,
}
use tropek.Js.Unique.{
  unique_from, unique_by, unique, unique_by-IsDistinct, contains-unique_by, find-unique_by,
  All-unique_by, Any-of_contains, contains_of-Any,
}
use tropek.Js.Text.{◌+++◌, decimal}
use tropek.Js.MultiMap.{
  push_at, non_empty, more, more_nil, more-more, get-push_at, values, values-push_at-perm,
}
use Prim.Native.Char.{code}
use Prim.Native.String
use tropek.Js.Sort.{sort}
use tropek.Charts.Labels.{
  PackItem, px, gaps, grid_left_px, grid_right_px, label_row_y, label_row_height_px, max_rows,
  band_px_for_rows, label_band_bottom_pad_px, pixel_x_for_index, clamp_label_x, pack_rows,
}
use tropek.Charts.Labels.Text.{
  clip_label_text, estimate_label_width, escape_html, candidate_fits, clipped, longest_prefix,
}

-- The fields of `Annotation` and its category that the labels read.
pub record Category : Type 0 where
  pub name : String
  pub label : List ℕ
  pub color : String
  pub show_on_graph : Bool

pub record Note : Type 0 where
  pub content : List ℕ
  pub category : Category

-- The units of a text of ASCII characters.
unfoldable pub units : String → List ℕ
units String.[] = []
units (String.◌∷◌ c s) = code c ∷ units s

-- The category whose name comes first, for `a.localeCompare(b) <= 0`.
unfoldable pub dominant_category : (String → String → Bool) → List Note → Option Category
unfolding sort
dominant_category locale_le visible =
    map? (λ note. note.category)
      (get_elem? (sort (λ x y. locale_le x.category.name y.category.name) visible) 0)

unfoldable pub raw_label_text : Note → List Note → List ℕ
unfolding units decimal
raw_label_text primary [] = primary.content
raw_label_text primary (note ∷ notes) =
    primary.content ++ units (" (+" +++ decimal (length (note ∷ notes)) +++ ")")

unfoldable pub tooltip_body : List Note → List ℕ
unfolding units escape_html
tooltip_body [] = []
tooltip_body (a ∷ notes) =
    units "<div><b>"
    ++ a.category.label
    ++ units "</b>: "
    ++ escape_html a.content
    ++ units "</div>"
    ++ tooltip_body notes

pub record PreparedLabel : Type 0 where
  pub index : ℕ
  pub pixel_x : ℕ
  pub label_width : ℕ
  pub label_text : List ℕ
  pub tooltip_body : List ℕ
  pub color : Option String
  pub eval_id : String

unfoldable pub visible_notes : Map (List Note) → String → List Note
unfolding get
visible_notes annotations_by_eval_id eval_id =
    filter (λ a. a.category.show_on_graph) (or_default (get annotations_by_eval_id eval_id) [])

pub record MarkLine : Type 0 where
  pub x_axis : ℕ
  pub color : Option String

pub record MarkPoint : Type 0 where
  pub x : ℕ
  pub y : ℕ
  pub label_width : ℕ
  pub label_text : List ℕ
  pub tooltip_body : List ℕ
  pub eval_id : String

pub record NoteAnnotationsResult : Type 0 where
  pub mark_line : List MarkLine
  pub mark_point : List MarkPoint
  pub label_band_px : ℕ

abbrev pub empty_result : NoteAnnotationsResult
empty_result = record { mark_line = []; mark_point = []; label_band_px = 0 }

unfoldable pub mark_line_item : PreparedLabel → MarkLine
mark_line_item entry = record { x_axis = entry.index; color = entry.color }

unfoldable pub mark_point_item : PreparedLabel → ℕ → MarkPoint
mark_point_item entry row = record {
  x = entry.pixel_x;
  y = label_row_y row + label_row_height_px / 2;
  label_width = entry.label_width;
  label_text = entry.label_text;
  tooltip_body = entry.tooltip_body;
  eval_id = entry.eval_id;
}

-- The loop over the labels and their rows.
unfoldable pub mark_points : List PreparedLabel → List ℕ → List MarkPoint
unfolding mark_point_item
mark_points [] rows = []
mark_points (entry ∷ entries) [] = []
mark_points (entry ∷ entries) (row ∷ rows) = mark_point_item entry row ∷ mark_points entries rows

-- `maxRowUsed + 1`
unfoldable pub rows_used : List ℕ → ℕ
rows_used [] = 0
rows_used (row ∷ rows) = max (suc row) (rows_used rows)

abbrev pub pack_item : PreparedLabel → PackItem
pack_item entry = record { pixel_x = entry.pixel_x; label_width = entry.label_width }

unfoldable pub build_marks : ℕ → List PreparedLabel → NoteAnnotationsResult
unfolding pack_rows mark_points mark_line_item rows_used band_px_for_rows
build_marks unit prepared =
    let rows = pack_rows unit (map pack_item prepared) in
    record {
      mark_line = map mark_line_item prepared;
      mark_point = mark_points prepared rows;
      label_band_px = band_px_for_rows (rows_used rows);
    }

module _ (text_px : List ℕ → ℕ) (locale_le : String → String → Bool) where
  -- The label of one point, for its visible notes.
  unfoldable pub prepare_label : ℕ → ℕ → ℕ → String → Note → List Note → Option PreparedLabel
  unfolding clip_label_text estimate_label_width clamp_label_x pixel_x_for_index raw_label_text
      tooltip_body dominant_category
  prepare_label i num_points chart_width eval_id primary notes =
      map?
        (λ label_text.
          let label_width = estimate_label_width text_px label_text in
          record {
            index = i;
            pixel_x =
                clamp_label_x (gaps num_points) (pixel_x_for_index i num_points chart_width)
                  label_width chart_width;
            label_width = label_width;
            label_text = label_text;
            tooltip_body = tooltip_body (primary ∷ notes);
            color = map? (λ c. c.color) (dominant_category locale_le (primary ∷ notes));
            eval_id = eval_id;
          })
        (clip_label_text text_px (raw_label_text primary notes))

  -- One point: no label where no note is visible.
  unfoldable pub prepare_point : ℕ → ℕ → ℕ → String → List Note → Option (List PreparedLabel)
  unfolding prepare_label
  prepare_point i num_points chart_width eval_id [] = some []
  prepare_point i num_points chart_width eval_id (primary ∷ notes) =
      map? (λ label. label ∷ []) (prepare_label i num_points chart_width eval_id primary notes)

  -- The loop over the points, from index `i`; a point is given by its evaluation's id.
  unfoldable pub prepare_from :
      ℕ → ℕ → ℕ → Map (List Note) → List String → Option (List PreparedLabel)
  unfolding prepare_point visible_notes
  prepare_from i num_points chart_width annotations [] = some []
  prepare_from i num_points chart_width annotations (eval_id ∷ eval_ids) =
      and_then (prepare_point i num_points chart_width eval_id (visible_notes annotations eval_id))
        (λ labels.
          map? (λ later. labels ++ later)
            (prepare_from (suc i) num_points chart_width annotations eval_ids))

  unfoldable pub build_note_annotations :
      List String → Map (List Note) → ℕ → Option NoteAnnotationsResult
  unfolding prepare_from build_marks
  build_note_annotations trend_points annotations chart_width =
      if leb chart_width (grid_left_px + grid_right_px)
      then some empty_result
      else map? (build_marks (gaps (length trend_points)))
          (prepare_from 0 (length trend_points) chart_width annotations trend_points)
