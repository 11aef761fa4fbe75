-- ===== src/Charts/Labels/Packing.antt =====
-- What `tryPack` promises of its rows.
pub mod Rows
use tropek.Prelude.{
  ℕ, zero, suc, ◌+◌, ◌≤◌, ◌<◌, ◌≡◌, refl, sym, ap, ◌∙◌, ◌≢◌, ◌⊎◌, inl, inr, true, false, Option,
  none, some, List, [], ◌∷◌, arith, eqb, Bool-cases, Option-cases, and_then, map?, is_some, length,
  get_elem?, All, eqb→eq,
}
use mathlib.Core.Path.{subst}
use tropek.Charts.Labels.{
  PackItem, px, half, right_edge, min_label_gap_px, max_rows, has_room, place, place_all,
  empty_rows, try_pack, stagger, pack_from, pack_rows,
}

-- Every item that has row `k` starts at least the gap after `edge`; the rows are as many as the
-- items.
abbrev pub Clears : ℕ → ℕ → ℕ → List PackItem → List ℕ → Type 0
Clears unit edge k [] [] = Unit
Clears unit edge k (item ∷ items) (row ∷ rows) =
    (row ≡ k → edge + px unit min_label_gap_px + half unit item.label_width ≤ item.pixel_x)
    × Clears unit edge k items rows
Clears unit edge k _ _ = ⊥

-- Each item ends the gap before every later item of its row.
abbrev pub IsApart : ℕ → List PackItem → List ℕ → Type 0
IsApart unit [] [] = Unit
IsApart unit (item ∷ items) (row ∷ rows) =
    Clears unit (right_edge unit item) row items rows × IsApart unit items rows
IsApart unit _ _ = ⊥

-- What a successful `place` did to the right edges.
record IsPlaced (unit : ℕ) (item : PackItem) (before after : List (Option ℕ)) (row : ℕ)
    : Type 0 where
  pub holds : get_elem? after row ≡ some (some (right_edge unit item))
  pub fits :
      (edge : ℕ)
      → get_elem? before row ≡ some (some edge)
      → edge + px unit min_label_gap_px + half unit item.label_width ≤ item.pixel_x
  pub others : (k : ℕ) → k ≢ row → get_elem? after k ≡ get_elem? before k
  pub size : length after ≡ length before

-- What a result of `place` says of the rows that it was given.
abbrev Placed : ℕ → PackItem → List (Option ℕ) → Option (ℕ × List (Option ℕ)) → Type 0
Placed unit item rows none = Unit
Placed unit item rows (some (row, rows')) = IsPlaced unit item rows rows' row

IsPlaced-first :
    (unit : ℕ) (item : PackItem) (last_right : Option ℕ) (rows : List (Option ℕ))
    → has_room unit item last_right ≡ true
    → IsPlaced unit item (last_right ∷ rows) (some (right_edge unit item) ∷ rows) 0
unfolding has_room
IsPlaced-first unit item last_right rows h = record {
  holds = refl;
  fits = λ edge e. ground (arith, h, e);
  others = others;
  size = refl;
}
  where
    others :
        (k : ℕ)
        → k ≢ 0
        → get_elem? (some (right_edge unit item) ∷ rows) k ≡ get_elem? (last_right ∷ rows) k
    others zero h = elim (h refl) [ ]
    others (suc k) h = refl

IsPlaced-later :
    (unit : ℕ) (item : PackItem) (last_right : Option ℕ) (rows : List (Option ℕ))
    (o : Option (ℕ × List (Option ℕ)))
    → Placed unit item rows o
    → Placed unit item (last_right ∷ rows) (map? (λ (row, rows'). (suc row, last_right ∷ rows')) o)
IsPlaced-later unit item last_right rows none h = tt
IsPlaced-later unit item last_right rows (some (row, rows')) h = record {
  holds = h.holds;
  fits = h.fits;
  others = others;
  size = ground (arith, h.size);
}
  where
    others :
        (k : ℕ) → k ≢ suc row → get_elem? (last_right ∷ rows') k ≡ get_elem? (last_right ∷ rows) k
    others zero g = refl
    others (suc k) g = h.others k (λ e. g (rw e))

place_lem :
    (unit : ℕ) (item : PackItem) (rows : List (Option ℕ))
    → Placed unit item rows (place unit item rows)
unfolding place
place_lem unit item [] = tt
place_lem unit item (last_right ∷ rows) = elim (Bool-cases (has_room unit item last_right)) [
  | inl e ↦ rw e (IsPlaced-first unit item last_right rows e)
  | inr e ↦
      rw e
        (IsPlaced-later unit item last_right rows (place unit item rows) (place_lem unit item rows))
]

-- What a result of `tryPack` says, for the rows that it started from.
abbrev Packed : ℕ → List PackItem → List (Option ℕ) → Option (List ℕ) → Type 0
Packed unit items rows none = Unit
Packed unit items rows (some assignments) =
    IsApart unit items assignments
    × All (λ row. row < length rows) assignments
    × ((k edge : ℕ) → get_elem? rows k ≡ some (some edge) → Clears unit edge k items assignments)

Clears-mono :
    (unit edge edge' k : ℕ) (items : List PackItem) (assignments : List ℕ)
    → edge ≤ edge'
    → Clears unit edge' k items assignments
    → Clears unit edge k items assignments
Clears-mono unit edge edge' k [] [] le h = tt
Clears-mono unit edge edge' k [] (row ∷ rows) le h = h
Clears-mono unit edge edge' k (item ∷ items) [] le h = h
Clears-mono unit edge edge' k (item ∷ items) (row ∷ rows) le (f, h) =
    ((λ e. let g = f e in omega arith), Clears-mono unit edge edge' k items rows le h)

get_elem?-lt : {A : Type 0} (xs : List A) (k : ℕ) {a : A} → get_elem? xs k ≡ some a → k < length xs
get_elem?-lt [] k h = ground (arith, h)
get_elem?-lt (x ∷ xs) zero h = omega arith
get_elem?-lt (x ∷ xs) (suc k) h = let l = get_elem?-lt xs k h in omega arith

Packed-more :
    (unit : ℕ) (item : PackItem) (items : List PackItem) (rows rows' : List (Option ℕ)) (row : ℕ)
    (o : Option (List ℕ))
    → IsPlaced unit item rows rows' row
    → Packed unit items rows' o
    → Packed unit (item ∷ items) rows (map? (λ assignments. row ∷ assignments) o)
Packed-more unit item items rows rows' row none p h = tt
Packed-more unit item items rows rows' row (some assignments) p (apart, bound, clears) = (
  (clears row (right_edge unit item) p.holds, apart),
  (row_lt, subst (λ n. All (λ k. k < n) assignments) p.size bound),
  λ k edge e. (clears_head k edge e, clears_tail k edge e (Bool-cases (eqb k row))),
)
  where
    row_lt : row < length rows
    row_lt = let l = get_elem?-lt rows' row p.holds in ground (arith, l, p.size)

    clears_head :
        (k edge : ℕ)
        → get_elem? rows k ≡ some (some edge)
        → row ≡ k
        → edge + px unit min_label_gap_px + half unit item.label_width ≤ item.pixel_x
    clears_head k edge e same = p.fits edge (rw same e)

    clears_tail :
        (k edge : ℕ)
        → get_elem? rows k ≡ some (some edge)
        → (eqb k row ≡ true) ⊎ (eqb k row ≡ false)
        → Clears unit edge k items assignments
    clears_tail k edge e (inl same) =
        let eq = eqb→eq k row same in
        Clears-mono unit edge (right_edge unit item) k items assignments
          (let f = clears_head k edge e (sym eq) in omega arith)
          (clears k (right_edge unit item) (rw eq p.holds))
    clears_tail k edge e (inr other) =
        clears k edge (p.others k (λ eq. ground (arith, other, eq)) ∙ e)

Packed-Placed :
    (unit : ℕ) (item : PackItem) (items : List PackItem) (rows : List (Option ℕ))
    (o : Option (ℕ × List (Option ℕ)))
    → Placed unit item rows o
    → ((rows' : List (Option ℕ)) → Packed unit items rows' (place_all unit items rows'))
    → Packed unit (item ∷ items) rows (
        and_then o
          (λ (row, rows'). map? (λ assignments. row ∷ assignments) (place_all unit items rows')))
Packed-Placed unit item items rows none h ih = tt
Packed-Placed unit item items rows (some (row, rows')) h ih =
    Packed-more unit item items rows rows' row (place_all unit items rows') h (ih rows')

place_all_lem :
    (unit : ℕ) (items : List PackItem) (rows : List (Option ℕ))
    → Packed unit items rows (place_all unit items rows)
unfolding place_all
place_all_lem unit [] rows = (tt, tt, λ k edge e. tt)
place_all_lem unit (item ∷ items) rows =
    Packed-Placed unit item items rows (place unit item rows) (place_lem unit item rows)
      (place_all_lem unit items)

length-empty_rows : (n : ℕ) → length (empty_rows n) ≡ n
unfolding empty_rows
length-empty_rows zero = refl
length-empty_rows (suc n) = ground (arith, length-empty_rows n)

-- Where the labels fit into a number of rows, no label of a row reaches into the gap before a later
-- label of that row, and every row is one of them.
pub try_pack-IsApart :
    (unit : ℕ) (items : List PackItem) (row_count : ℕ) (assignments : List ℕ)
    → try_pack unit items row_count ≡ some assignments
    → IsApart unit items assignments × All (λ row. row < row_count) assignments
unfolding try_pack
try_pack-IsApart unit items row_count assignments h =
    let (apart, bound, clears) =
      subst (Packed unit items (empty_rows row_count)) h
        (place_all_lem unit items (empty_rows row_count)) in
    (apart, subst (λ n. All (λ row. row < n) assignments) (length-empty_rows row_count) bound)
