-- ===== src/MetaTimeline/Escape.antt =====
-- The escape of the tooltip's texts (components/renderSpanTooltip.tsx of ui/src/features/meta_timeline)
-- and that of the charts (ui/src/lib/chartAnnotations.ts).
use tropek.Prelude.{
  ℕ, ◌≡◌, refl, sym, ap, ◌∙◌, inl, inr, List, [], ◌∷◌, ◌++◌, eqb, if◌then◌else◌, Bool-cases,
}
use mathlib.Core.List.{append_assoc}
use tropek.Charts.Labels.Text.{escape_unit, escape_html}
use tropek.MetaTimeline.{replace_unit, escape_in_turn}

replace_unit-append :
    (unit : ℕ) (replacement cs ds : List ℕ)
    → replace_unit unit replacement (cs ++ ds)
      ≡ replace_unit unit replacement cs ++ replace_unit unit replacement ds
unfolding replace_unit
replace_unit-append unit replacement [] ds = refl
replace_unit-append unit replacement (c ∷ cs) ds =
    ap ((if eqb c unit then replacement else c ∷ []) ++◌)
      (replace_unit-append unit replacement cs ds)
    ∙ sym (append_assoc (if eqb c unit then replacement else c ∷ []) _ _)

escape_in_turn-append :
    (cs ds : List ℕ) → escape_in_turn (cs ++ ds) ≡ escape_in_turn cs ++ escape_in_turn ds
unfolding escape_in_turn
escape_in_turn-append cs ds =
    rw
      (
        replace_unit-append 38 _ cs ds,
        replace_unit-append 60,
        replace_unit-append 62,
        replace_unit-append 34,
        replace_unit-append 39,
      )
      refl

escape_in_turn-unit : (c : ℕ) → escape_in_turn (c ∷ []) ≡ escape_unit c
unfolding escape_in_turn replace_unit escape_unit
escape_in_turn-unit c = elim (Bool-cases (eqb c 38)) [
  | inl e ↦ rw e refl
  | inr e ↦ rw e (elim (Bool-cases (eqb c 60)) [
    | inl f ↦ rw f refl
    | inr f ↦ rw f (elim (Bool-cases (eqb c 62)) [
      | inl g ↦ rw g refl
      | inr g ↦ rw g (elim (Bool-cases (eqb c 34)) [
        | inl h ↦ rw h refl
        | inr h ↦ rw h (elim (Bool-cases (eqb c 39)) [ inl i ↦ rw i refl | inr i ↦ rw i refl ])
      ])
    ])
  ])
]

escape_in_turn-nil : escape_in_turn [] ≡ []
unfolding escape_in_turn
escape_in_turn-nil = refl

-- The escape of the tooltip, one replacement after the other, and that of the charts, which goes
-- through the text once, give the same text.
pub escape_in_turn-escape_html : (text : List ℕ) → escape_in_turn text ≡ escape_html text
unfolding escape_html
escape_in_turn-escape_html [] = escape_in_turn-nil
escape_in_turn-escape_html (c ∷ cs) =
    escape_in_turn-append (c ∷ []) cs ∙ cc (escape_in_turn-unit c, escape_in_turn-escape_html cs)
