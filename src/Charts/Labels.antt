-- ===== src/Charts/Labels.antt =====
-- lib/chartAnnotations.ts: where the label of a note stands above a chart, and in which row.
-- `Text` is about what the label says, `Notes` about the labels of all notes.
--
-- A distance along the x axis is counted in ticks, with `2 * unit` ticks to a pixel, where `unit` is
-- the number of the gaps between the points: the quotients of the source are exact then.
pub mod Packing
pub mod Position
pub mod Text
pub mod Notes
use tropek.Prelude.{
  ℕ, zero, suc, ◌+◌, ◌-◌, ◌*◌, ◌/◌, ◌%◌, ◌≤◌, ◌<◌, String, ◌≡◌, refl, sym, ap, ◌∙◌, ◌≢◌, ◌↔◌, ◌⊎◌,
  inl, inr, Bool, true, false, not, ◌&&◌, ◌||◌, Option, none, some, List, [], ◌∷◌, ◌++◌, map,
  reverse, arith, ◌==◌, eq_iff, eq_refl, ltb, leb, eqb, if◌then◌else◌, Bool-cases, Bool_ext,
  Option-cases, or_default, or_else, and_then, map?, is_some, length, get_elem?, filter, find, any,
  All, Any, length-append, length-map, length-reverse, get_elem?-append_left,
  get_elem?-append_length, get_elem?-reverse, get_elem?-map, All-append, ltb→lt, lt→ltb, leb→le,
  eqb→eq, eqb_refl, tests, min, max,
}
use tropek.Js.Map.{
  contains, IsDistinct, Map, keys, get, set, set_all, from_entries, find_last, get-set,
  get-from_entries, contains-keys-set, keys-set-IsDistinct, contains-keys,
}
use tropek.Js.Unique.{
  unique_from, unique_by, unique, unique_by-IsDistinct, contains-unique_by, find-unique_by,
  All-unique_by, Any-of_contains, contains_of-Any,
}
use tropek.Js.Text.{◌+++◌, decimal}
use tropek.Js.MultiMap.{
  push_at, non_empty, more, more_nil, more-more, get-push_at, values, values-push_at-perm,
}

abbrev pub label_row_height_px : ℕ
label_row_height_px = 16

abbrev pub row_spacing_px : ℕ
row_spacing_px = 4

abbrev pub row_stride_px : ℕ
row_stride_px = label_row_height_px + row_spacing_px

abbrev pub label_band_top_px : ℕ
label_band_top_px = 6

abbrev pub label_band_bottom_pad_px : ℕ
label_band_bottom_pad_px = 6

abbrev pub label_edge_inset_px : ℕ
label_edge_inset_px = 2

-- `LABEL_ROW_Y[row]`, for the three rows there are.
abbrev pub label_row_y : ℕ → ℕ
label_row_y row = label_band_top_px + row * row_stride_px

abbrev pub max_rows : ℕ
max_rows = 3

unfoldable pub band_px_for_rows : ℕ → ℕ
band_px_for_rows zero = 0
band_px_for_rows (suc last) = label_row_y last + label_row_height_px / 2 + label_band_bottom_pad_px

abbrev pub grid_left_px : ℕ
grid_left_px = 56

abbrev pub grid_right_px : ℕ
grid_right_px = 16

abbrev pub min_label_gap_px : ℕ
min_label_gap_px = 2

-- The number of the gaps between the points, which the source divides by, and 1 where it does not.
abbrev pub gaps : ℕ → ℕ
gaps num_points = max (num_points - 1) 1

abbrev pub px : ℕ → ℕ → ℕ
px unit distance = 2 * (unit * distance)

unfoldable pub pixel_x_for_index : ℕ → ℕ → ℕ → ℕ
pixel_x_for_index i num_points chart_width =
    if leb num_points 1
    then px (gaps num_points) grid_left_px
    else px (gaps num_points) grid_left_px
      + 2 * (i * max (chart_width - grid_left_px - grid_right_px) 1)

-- Half of a label, in ticks.
abbrev pub half : ℕ → ℕ → ℕ
half unit label_width = unit * label_width

unfoldable pub clamp_label_x : ℕ → ℕ → ℕ → ℕ → ℕ
clamp_label_x unit pixel_x label_width chart_width =
    let min_x = half unit label_width + px unit label_edge_inset_px in
    let max_x =
      max (px unit chart_width - half unit label_width - px unit label_edge_inset_px) min_x in
    min (max pixel_x min_x) max_x

-- `pixel_x` in ticks, `label_width` in pixels.
pub record PackItem : Type 0 where
  pub pixel_x : ℕ
  pub label_width : ℕ

abbrev pub right_edge : ℕ → PackItem → ℕ
right_edge unit item = item.pixel_x + half unit item.label_width

-- `leftEdge - lastRight >= MIN_LABEL_GAP_PX`, with `none` for the `-Infinity` of an empty row.
unfoldable pub has_room : ℕ → PackItem → Option ℕ → Bool
has_room unit item none = true
has_room unit item (some last_right) =
    leb (last_right + px unit min_label_gap_px + half unit item.label_width) item.pixel_x

-- The loop over the rows: the first row with room, and the right edges once it holds the item.
unfoldable pub place : ℕ → PackItem → List (Option ℕ) → Option (ℕ × List (Option ℕ))
unfolding has_room
place unit item [] = none
place unit item (last_right ∷ rows) =
    let rest = place unit item rows in
    if has_room unit item last_right
    then some (0, some (right_edge unit item) ∷ rows)
    else map? (λ (row, rows'). (suc row, last_right ∷ rows')) rest

unfoldable pub place_all : ℕ → List PackItem → List (Option ℕ) → Option (List ℕ)
unfolding place
place_all unit [] rows = some []
place_all unit (item ∷ items) rows =
    and_then (place unit item rows)
      (λ (row, rows'). map? (λ assignments. row ∷ assignments) (place_all unit items rows'))

unfoldable pub empty_rows : ℕ → List (Option ℕ)
empty_rows zero = []
empty_rows (suc n) = none ∷ empty_rows n

unfoldable pub try_pack : ℕ → List PackItem → ℕ → Option (List ℕ)
unfolding place_all empty_rows
try_pack unit items row_count = place_all unit items (empty_rows row_count)

-- The fallback: the rows in turn.
unfoldable pub stagger : ℕ → List PackItem → List ℕ
stagger i [] = []
stagger i (item ∷ items) = (i % max_rows) ∷ stagger (suc i) items

-- The loop over the numbers of rows: `left` of them are still to try, from `row_count`.
unfoldable pub pack_from : ℕ → List PackItem → ℕ → ℕ → List ℕ
unfolding try_pack stagger
pack_from unit items zero row_count = stagger 0 items
pack_from unit items (suc left) row_count =
    or_default (try_pack unit items row_count) (pack_from unit items left (suc row_count))

unfoldable pub pack_rows : ℕ → List PackItem → List ℕ
unfolding pack_from
pack_rows unit items = pack_from unit items max_rows 1
