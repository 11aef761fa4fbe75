-- ===== src/Charts/Labels/Text/Escape.antt =====
-- The units that `escapeHtml` writes into the tooltip's markup.
use tropek.Prelude.{
  ℕ, ◌≡◌, refl, inl, inr, Bool, false, ◌||◌, List, [], ◌∷◌, arith, eqb, Bool-cases, All, All-append,
}
use tropek.Charts.Labels.Text.{escape_unit, escape_html}

-- The units that open or close a tag or an attribute: `<`, `>`, `"` and `'`.
unfoldable pub is_markup : ℕ → Bool
is_markup c = eqb c 60 || (eqb c 62 || (eqb c 34 || eqb c 39))

escape_unit-plain : (c : ℕ) → All (λ d. is_markup d ≡ false) (escape_unit c)
unfolding escape_unit is_markup
escape_unit-plain c = elim (Bool-cases (eqb c 38)) [
  | inl e ↦ rw e (refl, (refl, (refl, (refl, (refl, tt)))))
  | inr e ↦ rw e (elim (Bool-cases (eqb c 60)) [
    | inl f ↦ rw f (refl, (refl, (refl, (refl, tt))))
    | inr f ↦ rw f (elim (Bool-cases (eqb c 62)) [
      | inl g ↦ rw g (refl, (refl, (refl, (refl, tt))))
      | inr g ↦ rw g (elim (Bool-cases (eqb c 34)) [
        | inl h ↦ rw h (refl, (refl, (refl, (refl, (refl, (refl, tt))))))
        | inr h ↦ rw h (elim (Bool-cases (eqb c 39)) [
          | inl i ↦ rw i (refl, (refl, (refl, (refl, (refl, tt)))))
          | inr i ↦ rw i (ground (arith, f, g, h, i), tt)
        ])
      ])
    ])
  ])
]

-- No text leaves `escapeHtml` with a unit of markup.
pub escape_html-plain : (text : List ℕ) → All (λ c. is_markup c ≡ false) (escape_html text)
unfolding escape_html
escape_html-plain [] = tt
escape_html-plain (c ∷ cs) =
    All-append (λ d. is_markup d ≡ false) (escape_unit c) (escape_html cs) (escape_unit-plain c)
      (escape_html-plain cs)
