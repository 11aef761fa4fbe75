-- ===== src/MetaTimeline/Tests.antt =====
-- The theorems about the timeline at concrete inputs.
use tropek.Prelude.{ℕ, ◌-◌, ◌%◌, ◌<◌, ◌≡◌, refl, List, [], ◌∷◌, ltb, if◌then◌else◌}
use tropek.Charts.Labels.Text.{escape_html}
use tropek.MetaTimeline.{
  meta_span_palette_size, get_span_color_index, items_text, escape_in_turn, TimelineItemDto,
  dto_to_item,
}
use tropek.MetaTimeline.Colors.{hash_exactly, get_span_color_index_lem}
use tropek.MetaTimeline.Escape.{escape_in_turn-escape_html}

-- `v1.2.3`
abbrev version : List ℕ
version = 118 ∷ 49 ∷ 46 ∷ 50 ∷ 46 ∷ 51 ∷ []

get_span_color_index_lem_example :
    (get_span_color_index version < meta_span_palette_size)
    × (get_span_color_index version ≡ (
        if ltb (hash_exactly 5381 version % 4294967296) 2147483648
        then hash_exactly 5381 version % 8
        else (8 - hash_exactly 5381 version % 8) % 8))
get_span_color_index_lem_example = get_span_color_index_lem version

-- `<a & "b">`
abbrev markup : List ℕ
markup = 60 ∷ 97 ∷ 32 ∷ 38 ∷ 32 ∷ 34 ∷ 98 ∷ 34 ∷ 62 ∷ []

escape_in_turn-escape_html_example : escape_in_turn markup ≡ escape_html markup
escape_in_turn-escape_html_example = escape_in_turn-escape_html markup

three_items : items_text 3 ≡ "3 items tracked"
unfolding items_text
three_items = refl

abbrev item : TimelineItemDto
item = record {
  class_name = "meta-span-open";
  content = "";
  end_ = "2";
  group = "g";
  id = "1";
  source = "scan";
  start = "1";
  type_ = "range";
}

open_item :
    (dto_to_item (λ date. date) (λ text. []) item).class_name ≡ "meta-span-open meta-span-color-5"
unfolding dto_to_item
open_item = refl
