-- ===== src/Charts/Labels/Packing/Rows.antt =====
-- What `packRows` promises of its rows.
use tropek.Prelude.{
  inl, inr, Option, none, some, map, true, ℕ, zero, suc, ◌+◌, ◌≤◌, ◌<◌, ◌≡◌, refl, inl, inr, true,
  none, List, [], ◌∷◌, arith, Option-cases, length, All,
}
use tropek.Charts.Labels.{PackItem, max_rows, try_pack, stagger, pack_from, pack_rows}
use tropek.Charts.Labels.Packing.{Clears, IsApart, try_pack-IsApart}

length-IsApart :
    (unit : ℕ) (items : List PackItem) (assignments : List ℕ)
    → IsApart unit items assignments
    → length assignments ≡ length items
length-IsApart unit [] [] h = refl
length-IsApart unit [] (row ∷ rows) h = elim h [ ]
length-IsApart unit (item ∷ items) [] h = elim h [ ]
length-IsApart unit (item ∷ items) (row ∷ rows) (f, h) =
    ground (arith, length-IsApart unit items rows h)

length-stagger : (i : ℕ) (items : List PackItem) → length (stagger i items) ≡ length items
unfolding stagger
length-stagger i [] = refl
length-stagger i (item ∷ items) = ground (arith, length-stagger (suc i) items)

stagger-bound : (i : ℕ) (items : List PackItem) → All (λ row. row < max_rows) (stagger i items)
unfolding stagger
stagger-bound i [] = tt
stagger-bound i (item ∷ items) = (omega arith, stagger-bound (suc i) items)

-- A row for each label, among the rows that there are.
abbrev pub IsFull : List PackItem → List ℕ → Type 0
IsFull items rows = (length rows ≡ length items) × All (λ row. row < max_rows) rows

All-mono : (rows : List ℕ) (m n : ℕ) → m ≤ n → All (λ row. row < m) rows → All (λ row. row < n) rows
All-mono [] m n le h = tt
All-mono (row ∷ rows) m n le (l, h) = (omega arith, All-mono rows m n le h)

pack_from-IsFull :
    (unit : ℕ) (items : List PackItem) (left row_count : ℕ)
    → left + row_count ≤ suc max_rows
    → IsFull items (pack_from unit items left row_count)
unfolding pack_from
pack_from-IsFull unit items zero row_count le = (length-stagger 0 items, stagger-bound 0 items)
pack_from-IsFull unit items (suc left) row_count le =
    elim (Option-cases (try_pack unit items row_count)) [
      | inl e ↦ rw e (pack_from-IsFull unit items left (suc row_count) (omega arith))
      | inr (rows, e) ↦
          let (apart, bound) = try_pack-IsApart unit items row_count rows e in
          rw e (
            length-IsApart unit items rows apart,
            All-mono rows row_count max_rows (omega arith) bound,
          )
    ]

-- `packRows` gives every label a row, and only rows that there are: the index into `LABEL_ROW_Y` is
-- in range.
pub pack_rows-IsFull : (unit : ℕ) (items : List PackItem) → IsFull items (pack_rows unit items)
unfolding pack_rows
pack_rows-IsFull unit items = pack_from-IsFull unit items max_rows 1 (omega arith)

-- All labels in the one row.
abbrev one_row : List PackItem → List ℕ
one_row items = map (λ item. 0) items

-- The labels start the gap after the edge of the row, if it has one.
abbrev StartsAfter : ℕ → Option ℕ → List PackItem → Type 0
StartsAfter unit none items = Unit
StartsAfter unit (some edge) items = Clears unit edge 0 items (one_row items)

-- No label-by-label choice of the first row with room, among so many rows, places every label, and
-- the labels overlap in a single row.
abbrev pub FindsNoRoom : ℕ → List PackItem → Type 0
FindsNoRoom unit items =
    (try_pack unit items 1 ≡ none)
    × (try_pack unit items 2 ≡ none)
    × (try_pack unit items 3 ≡ none)
    × ¬ IsApart unit items (map (λ item. 0) items)
