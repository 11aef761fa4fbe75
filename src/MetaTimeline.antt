-- ===== src/MetaTimeline.antt =====
-- The timeline of an asset's meta data: ui/src/features/meta_timeline, its mappers.ts and domain.ts,
-- the colours of the spans (components/spanColor.ts), the strip above the timeline and the texts of
-- the tooltip. A text that the code goes through unit by unit is the list of its UTF-16 units.
mod Colors
mod Escape
mod Tests
use tropek.Prelude.{
  ℕ, zero, suc, ◌+◌, ◌-◌, ◌*◌, ◌/◌, ◌%◌, ◌≤◌, ◌<◌, String, ◌≡◌, refl, sym, ap, ◌∙◌, ◌≢◌, ◌↔◌, ◌⊎◌,
  inl, inr, Bool, true, false, not, ◌&&◌, ◌||◌, Option, none, some, List, [], ◌∷◌, ◌++◌, map,
  reverse, arith, ◌==◌, eq_iff, eq_refl, ltb, leb, eqb, if◌then◌else◌, Bool-cases, Bool_ext,
  Option-cases, or_default, or_else, and_then, map?, is_some, length, get_elem?, filter, find, any,
  map_from, drop_at_from, All, Any, length-append, length-map, length-reverse,
  get_elem?-append_left, get_elem?-append_length, get_elem?-reverse, get_elem?-map, All-append,
  ltb→lt, lt→ltb, leb→le, eqb→eq, eqb_refl, tests, min, max,
}
use tropek.Js.Map.{
  contains, IsDistinct, Map, keys, get, set, set_all, from_entries, find_last, get-set,
  get-from_entries, contains-keys-set, keys-set-IsDistinct, contains-keys,
}
use tropek.Js.Unique.{
  unique_from, unique_by, unique, unique_by-IsDistinct, contains-unique_by, find-unique_by,
  All-unique_by, Any-of_contains, contains_of-Any,
}
use tropek.Js.Text.{◌+++◌, decimal}
use tropek.Js.MultiMap.{
  push_at, non_empty, more, more_nil, more-more, get-push_at, values, values-push_at-perm,
}
use tropek.Evaluations.Mappers.{truthy}

pub record TimelineGroupDto : Type 0 where
  pub content : String
  pub id : String
  pub nested_groups : Option (List String)
  pub show_nested : Option Bool

pub record TimelineItemDto : Type 0 where
  pub class_name : String
  pub content : String
  pub end_ : String
  pub group : String
  pub id : String
  pub source : String
  pub start : String
  pub type_ : String

pub record TimelineResponseDto : Type 0 where
  pub groups : List TimelineGroupDto
  pub items : List TimelineItemDto

pub record MetaTimelineGroup : Type 0 where
  pub id : String
  pub content : String
  pub nested_groups : Option (List String)
  pub show_nested : Option Bool

pub record MetaTimelineItem (D : Type 0) : Type 0 where
  pub id : String
  pub group : String
  pub content : String
  pub start : D
  pub end_ : D
  pub type_ : String
  pub class_name : String
  pub source : String

pub record MetaTimelineResponse (D : Type 0) : Type 0 where
  pub groups : List MetaTimelineGroup
  pub items : List (MetaTimelineItem D)

abbrev pub meta_span_palette_size : ℕ
meta_span_palette_size = 8

-- A number of 32 bits with a sign stands here as its remainder by 2 ^ 32. Shifting it, adding
-- and `| 0` depend on the remainder alone, as the code's sums are below 2 ^ 34 and exact.
unfoldable pub hash_step : ℕ → ℕ → ℕ
hash_step hash unit = (((hash * 32) % 4294967296) + hash + unit) % 4294967296

unfoldable pub hash_from : ℕ → List ℕ → ℕ
unfolding hash_step
hash_from hash [] = hash
hash_from hash (unit ∷ units) = hash_from (hash_step hash unit) units

-- `Math.abs`: the remainders from 2 ^ 31 stand for the negative numbers.
unfoldable pub magnitude : ℕ → ℕ
magnitude hash = if ltb hash 2147483648 then hash else 4294967296 - hash

unfoldable pub get_span_color_index : List ℕ → ℕ
unfolding hash_from magnitude
get_span_color_index value = magnitude (hash_from 5381 value) % meta_span_palette_size

unfoldable pub dto_to_group : TimelineGroupDto → MetaTimelineGroup
dto_to_group dto = record {
  id = dto.id;
  content = dto.content;
  nested_groups = dto.nested_groups;
  show_nested = dto.show_nested;
}

unfoldable pub class_for : Option String → String → String
class_for none color = color
class_for (some name) color = name +++ " " +++ color

module _ {D : Type 0} (new_date : String → D) (units : String → List ℕ) where
  unfoldable pub dto_to_item : TimelineItemDto → MetaTimelineItem D
  unfolding get_span_color_index class_for decimal
  dto_to_item dto = record {
    id = dto.id;
    group = dto.group;
    content = dto.content;
    start = new_date dto.start;
    end_ = new_date dto.end_;
    type_ = "range";
    class_name =
        class_for (truthy (some dto.class_name))
          ("meta-span-color-" +++ decimal (get_span_color_index (units dto.content)));
    source = dto.source;
  }

  unfoldable pub dto_to_meta_timeline_response : TimelineResponseDto → MetaTimelineResponse D
  unfolding dto_to_group dto_to_item
  dto_to_meta_timeline_response dto = record {
    groups = map dto_to_group dto.groups;
    items = map dto_to_item dto.items;
  }

-- CollapsedStrip
unfoldable pub items_text : ℕ → String
unfolding decimal
items_text item_count =
    if eqb item_count 0
    then "no items tracked"
    else if eqb item_count 1
    then "1 item tracked"
    else decimal item_count +++ " items tracked"

-- The five replacements of `escapeHtml` of renderSpanTooltip.tsx, one after the other.
unfoldable pub replace_unit : ℕ → List ℕ → List ℕ → List ℕ
replace_unit unit replacement [] = []
replace_unit unit replacement (c ∷ cs) =
    (if eqb c unit then replacement else c ∷ []) ++ replace_unit unit replacement cs

unfoldable pub escape_in_turn : List ℕ → List ℕ
unfolding replace_unit
escape_in_turn text = replace_unit 39 (38 ∷ 35 ∷ 51 ∷ 57 ∷ 59 ∷ []) (
    replace_unit 34 (38 ∷ 113 ∷ 117 ∷ 111 ∷ 116 ∷ 59 ∷ []) (
      replace_unit 62 (38 ∷ 103 ∷ 116 ∷ 59 ∷ []) (
        replace_unit 60 (38 ∷ 108 ∷ 116 ∷ 59 ∷ [])
          (replace_unit 38 (38 ∷ 97 ∷ 109 ∷ 112 ∷ 59 ∷ []) text))))
