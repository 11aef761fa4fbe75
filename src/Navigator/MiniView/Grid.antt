-- ===== src/Navigator/MiniView/Grid.antt =====
-- Where `sloGroupToMiniView` places its cells.
use native.Mathlib.Nat.{add-zero}
use tropek.Prelude.{
  ℕ, zero, suc, ◌+◌, ◌<◌, String, ◌≡◌, refl, some, List, [], ◌∷◌, ◌++◌, arith, map?, length,
  get_elem?, All,
}
use tropek.Js.Map.{Map}
use tropek.Js.Number.{Arithmetic}
use tropek.Navigator.Types.{EvaluationColumn, HeatmapEChartsCell}
use tropek.Navigator.MiniView.{row_of}

module _ (a : Arithmetic) where
  open a use {Number}

  abbrev pub Cell : Type 0
  Cell = HeatmapEChartsCell Number

  pub All-row_of :
      (P : Cell → Type 0) (cell : ℕ → EvaluationColumn → Cell) (xi : ℕ)
      (columns : List EvaluationColumn)
      → ((k : ℕ) (column : EvaluationColumn)
          → get_elem? columns k ≡ some column
          → P (cell (xi + k) column))
      → All P (row_of a cell xi columns)
  unfolding row_of
  All-row_of P cell xi [] h = tt
  All-row_of P cell xi (column ∷ columns) h = (
    rw (← add-zero xi) (h 0 column refl),
    All-row_of P cell (suc xi) columns
        (λ k c e. let same : xi + suc k ≡ suc xi + k = omega arith in rw (← same) (h (suc k) c e)),
  )

  -- The cell stands in the grid of the rows and columns, its label is that of its row and its slot
  -- is that of its column.
  abbrev pub IsPlaced : List String → List EvaluationColumn → Cell → Type 0
  IsPlaced rows columns c =
      (c.y < length rows)
      × (get_elem? rows c.y ≡ some c.row_label)
      × (map? (λ column. column.evaluation_id) (get_elem? columns c.x) ≡ some c.slot)

  -- The places of a row of the grid, from column `x` on, and those of the grid, from the top row
  -- down: each place once.
  abbrev pub row_places : ℕ → ℕ → ℕ → List (ℕ × ℕ)
  row_places y x zero = []
  row_places y x (suc n) = (x, y) ∷ row_places y (suc x) n

  abbrev pub places : ℕ → ℕ → List (ℕ × ℕ)
  places zero n = []
  places (suc y) n = row_places y 0 n ++ places y n

  abbrev pub place_of : Cell → ℕ × ℕ
  place_of c = (c.x, c.y)
