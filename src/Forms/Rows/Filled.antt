-- ===== src/Forms/Rows/Filled.antt =====
-- What the handlers of features/registry/forms/WizardStepIndicators.tsx do to the criteria of the
-- rows.
use tropek.Prelude.{
  ℕ, zero, suc, ◌+◌, ◌-◌, ◌≤◌, ◌≡◌, refl, sym, ap, ◌∙◌, inl, inr, Bool, ◌&&◌, Option, some, List,
  [], ◌∷◌, arith, ltb, leb, eqb, if◌then◌else◌, Bool-cases, Option-cases, and_then, map?, length,
  get_elem?, map_from, drop_at_from, All, length-append,
}
use tropek.Js.MultiMap.{more}
use mathlib.Core.Option.{some_inj}
use mathlib.Core.Path.{subst}
use tropek.Js.Number.{NumberText}
use tropek.Forms.Criteria.{CriteriaParts, default_criteria}
use tropek.Forms.Rows.{
  IndicatorRow, update_row, toggle_check, set_weight, set_key, add_criterion, remove_criterion,
  update_pass_criteria, update_warn_criteria,
}

pub length-map_from :
    {A B : Type 0} (n : ℕ) (f : ℕ → A → B) (xs : List A) → length (map_from n f xs) ≡ length xs
length-map_from n f [] = refl
length-map_from n f (x ∷ xs) = ap suc (length-map_from (suc n) f xs)

All-map_from :
    {A : Type 0} (P : A → Type 0) (n index : ℕ) (patch : A → A) (xs : List A)
    → ((x : A) → get_elem? xs (index - n) ≡ some x → n ≤ index → P x → P (patch x))
    → All P xs
    → All P (map_from n (λ i x. if eqb i index then patch x else x) xs)
All-map_from P n index patch [] k h = h
All-map_from P n index patch (x ∷ xs) k h = (
  elim (Bool-cases (eqb n index)) [
    | inl e ↦
        let at_head : index - n ≡ 0 = ground (arith, e) in
        rw e (k x (ap (get_elem? (x ∷ xs)) at_head) (ground (arith, e)) h.0)
    | inr e ↦ rw e h.0
  ],
  All-map_from P (suc n) index patch xs
      (λ y m le q.
        let next : index - n ≡ suc (index - suc n) = omega (arith, le) in
        k y (ap (get_elem? (x ∷ xs)) next ∙ m) (omega (arith, le)) q)
      h.1,
)

All-get_elem? :
    {A : Type 0} (P : A → Type 0) (xs : List A) (i : ℕ) (x : A)
    → All P xs
    → get_elem? xs i ≡ some x
    → P x
All-get_elem? P [] i x h e = ground (arith, e)
All-get_elem? P (y ∷ xs) zero x h e = subst P (some_inj.0 e) h.0
All-get_elem? P (y ∷ xs) (suc i) x h e = All-get_elem? P xs i x h.1 e

length-drop_at_from :
    {A : Type 0} (n k : ℕ) (xs : List A)
    → length (drop_at_from n k xs)
      ≡ (if leb n k && ltb k (n + length xs) then length xs - 1 else length xs)
length-drop_at_from n k [] = ground arith
length-drop_at_from n k (x ∷ xs) = ground (arith, length-drop_at_from (suc n) k xs)

module _ (numbers : NumberText) where
  abbrev Row : Type 0
  Row = IndicatorRow numbers.Number

  -- A row has criteria to pass, and as many for a warning.
  abbrev pub IsFilled : Row → Type 0
  IsFilled row =
      (1 ≤ length row.pass_criteria) × (length row.pass_criteria ≡ length row.warn_criteria)

  pub data Edit : Type 0 where
    toggle_at : ℕ → Edit
    weigh : ℕ → numbers.Number → Edit
    mark : ℕ → Bool → Edit
    add : ℕ → Edit
    drop : ℕ → ℕ → Edit
    write_pass : ℕ → ℕ → CriteriaParts numbers.Number → Edit
    write_warn : ℕ → ℕ → CriteriaParts numbers.Number → Edit

  abbrev pub edit : Edit → List Row → Option (List Row)
  edit (Edit.toggle_at i) rows = toggle_check numbers i rows
  edit (Edit.weigh i w) rows = set_weight numbers i w rows
  edit (Edit.mark i k) rows = set_key numbers i k rows
  edit (Edit.add i) rows = add_criterion numbers i rows
  edit (Edit.drop i j) rows = remove_criterion numbers i j rows
  edit (Edit.write_pass i j parts) rows = update_pass_criteria numbers i j parts rows
  edit (Edit.write_warn i j parts) rows = update_warn_criteria numbers i j parts rows

  abbrev pub edits : List Edit → List Row → Option (List Row)
  edits [] rows = some rows
  edits (e ∷ es) rows = and_then (edit e rows) (edits es)

  update_row-IsFilled :
      (i : ℕ) (patch : Row → Row) (rows : List Row)
      → ((row : Row) → get_elem? rows i ≡ some row → IsFilled row → IsFilled (patch row))
      → All IsFilled rows
      → All IsFilled (update_row numbers i patch rows)
  unfolding update_row
  update_row-IsFilled i patch rows k h =
      All-map_from IsFilled 0 i patch rows
        (λ row m le filled. k row (ap (get_elem? rows) (omega arith) ∙ m) filled) h

  -- A handler that looks at its row first and changes it.
  with_row :
      (i : ℕ) (rows next : List Row) (f : Row → List Row)
      → ((row : Row) → get_elem? rows i ≡ some row → IsFilled row → All IsFilled (f row))
      → All IsFilled rows
      → map? f (get_elem? rows i) ≡ some next
      → All IsFilled next
  with_row i rows next f k h e = elim (Option-cases (get_elem? rows i)) [
    | inl m ↦ ground (arith, m, e)
    | inr (row, m) ↦
        subst (All IsFilled) (some_inj.0 (rw m at e))
          (k row m (All-get_elem? IsFilled rows i row h m))
  ]

  -- As before, where the patch takes the criteria of the row at hand.
  patch_row :
      (i : ℕ) (rows next : List Row) (patch : Row → Row → Row)
      → ((row : Row) → IsFilled row → IsFilled (patch row row))
      → All IsFilled rows
      → map? (λ row. update_row numbers i (patch row) rows) (get_elem? rows i) ≡ some next
      → All IsFilled next
  patch_row i rows next patch k h e =
      with_row i rows next _
        (λ row m filled.
          update_row-IsFilled i (patch row) rows
            (λ r n j. subst (λ x. IsFilled (patch row x)) (some_inj.0 (sym m ∙ n)) (k row filled))
            h)
        h e

  edit-IsFilled :
      (e : Edit) (rows next : List Row)
      → All IsFilled rows
      → edit e rows ≡ some next
      → All IsFilled next
  unfolding toggle_check set_weight set_key add_criterion remove_criterion update_pass_criteria
      update_warn_criteria
  edit-IsFilled (Edit.toggle_at i) rows next h e =
      patch_row i rows next _ (λ row filled. filled) h e
  edit-IsFilled (Edit.weigh i w) rows next h e =
      subst (All IsFilled) (some_inj.0 e) (update_row-IsFilled i _ rows (λ r m k. k) h)
  edit-IsFilled (Edit.mark i m) rows next h e =
      subst (All IsFilled) (some_inj.0 e) (update_row-IsFilled i _ rows (λ r m k. k) h)
  edit-IsFilled (Edit.add i) rows next h e =
      patch_row i rows next _
        (λ row filled. omega (
          arith,
          filled.0,
          filled.1,
          length-append row.pass_criteria (default_criteria numbers ∷ []),
          length-append row.warn_criteria (default_criteria numbers ∷ []),
        ))
        h e
  edit-IsFilled (Edit.drop i j) rows next h e =
      with_row i rows next _
        (λ row m filled. elim (Bool-cases (leb (length row.pass_criteria) 1)) [
          | inl one ↦ rw one h
          | inr more ↦ rw more (
              update_row-IsFilled i _ rows
                (λ r n k. ground (
                  arith,
                  more,
                  filled.0,
                  filled.1,
                  length-drop_at_from 0 j row.pass_criteria,
                  length-drop_at_from 0 j row.warn_criteria,
                ))
                h)
        ])
        h e
  edit-IsFilled (Edit.write_pass i j parts) rows next h e =
      patch_row i rows next _
        (λ row filled. omega (arith, filled.0, filled.1, length-map_from 0 _ row.pass_criteria)) h e
  edit-IsFilled (Edit.write_warn i j parts) rows next h e =
      patch_row i rows next _
        (λ row filled. omega (arith, filled.0, filled.1, length-map_from 0 _ row.warn_criteria)) h e

  -- Whatever is done to the rows, each keeps criteria to pass and as many for a warning.
  pub edits-IsFilled :
      (es : List Edit) (rows next : List Row)
      → All IsFilled rows
      → edits es rows ≡ some next
      → All IsFilled next
  edits-IsFilled [] rows next h e = subst (All IsFilled) (some_inj.0 e) h
  edits-IsFilled (x ∷ es) rows next h e = elim (Option-cases (edit x rows)) [
    | inl m ↦ ground (arith, m, e)
    | inr (now, m) ↦ edits-IsFilled es now next (edit-IsFilled x rows now h m) (rw m at e)
  ]
