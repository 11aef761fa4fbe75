-- ===== src/Evaluations/Categories.antt =====
-- The write side of the note categories: ui/src/features/note-categories/mappers.ts and domain.ts.
use tropek.Prelude.{String, ◌≡◌, refl, Bool, true, Option, none, some}

pub record NoteCategoryInput : Type 0 where
  pub name : String
  pub label : String
  pub color : String
  pub show_on_graph : Bool

pub record NoteCategoryPatch : Type 0 where
  pub name : Option String
  pub label : Option String
  pub color : Option String
  pub show_on_graph : Option Bool

pub record NoteCategoryCreateDto : Type 0 where
  pub name : String
  pub label : String
  pub color : String
  pub show_on_graph : Bool

pub record NoteCategoryUpdateDto : Type 0 where
  pub name : Option String
  pub label : Option String
  pub color : Option String
  pub show_on_graph : Option Bool

unfoldable pub note_category_input_to_dto : NoteCategoryInput → NoteCategoryCreateDto
note_category_input_to_dto input = record {
  name = input.name;
  label = input.label;
  color = input.color;
  show_on_graph = input.show_on_graph;
}

unfoldable pub note_category_patch_to_dto : NoteCategoryPatch → NoteCategoryUpdateDto
note_category_patch_to_dto patch = record {
  name = patch.name;
  label = patch.label;
  color = patch.color;
  show_on_graph = patch.show_on_graph;
}

patch_test :
    (note_category_patch_to_dto (record {
      name = none;
      label = some "Deploy";
      color = none;
      show_on_graph = some true;
    })).label
    ≡ some "Deploy"
unfolding note_category_patch_to_dto
patch_test = refl
