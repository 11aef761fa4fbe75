-- ===== src/Js/Text/Join.antt =====
-- Texts joined by a separator, and taken apart again.
use Prim.Native.Char.{Char, code}
use Prim.Native.String
use text.Mathlib.TextLemmas.{nil-append, cons-append, cons-ne-nil}
use tropek.Prelude.{ℕ, String, ◌≡◌, refl, sym, ap, ◌∙◌, ◌≢◌, ◌==◌, false, arith, eq_iff}

-- The character with code `sep` does not stand in the text.
abbrev pub IsFreeOf : ℕ → String → Type 0
IsFreeOf sep String.[] = Unit
IsFreeOf sep (String.◌∷◌ c s) = (code c ≢ sep) × IsFreeOf sep s

first : Char → String → Char
first d String.[] = d
first d (String.◌∷◌ c s) = c

rest : String → String
rest String.[] = String.[]
rest (String.◌∷◌ c s) = s

pub cons_injective :
    (c d : Char) (s t : String) → String.◌∷◌ c s ≡ String.◌∷◌ d t → (c ≡ d) × (s ≡ t)
unfolding first rest
cons_injective c d s t e = (ap (first c) e, ap rest e)

pub join_injective :
    (sep : Char) (s t u v : String)
    → IsFreeOf (code sep) s
    → IsFreeOf (code sep) t
    → String.◌++◌ s (String.◌∷◌ sep u) ≡ String.◌++◌ t (String.◌∷◌ sep v)
    → (s ≡ t) × (u ≡ v)
join_injective sep String.[] String.[] u v hs ht e =
    (refl, (cons_injective sep sep u v (sym (nil-append _) ∙ e ∙ nil-append _)).1)
join_injective sep String.[] (String.◌∷◌ c t) u v hs ht e =
    absurd (
      ht.0
        (sym (ap code (cons_injective sep c _ _ (sym (nil-append _) ∙ e ∙ cons-append c t _)).0)))
join_injective sep (String.◌∷◌ c s) String.[] u v hs ht e =
    absurd
      (hs.0 (ap code (cons_injective c sep _ _ (sym (cons-append c s _) ∙ e ∙ nil-append _)).0))
join_injective sep (String.◌∷◌ c s) (String.◌∷◌ d t) u v hs ht e =
    let (same, tails) = cons_injective c d _ _ (sym (cons-append c s _) ∙ e ∙ cons-append d t _) in
    let (ss, us) = join_injective sep s t u v hs.1 ht.1 tails in (cc (same, ss), us)

-- No NUL in the text.
abbrev pub IsNulFree : String → Type 0
IsNulFree = IsFreeOf 0

pub nul_cons : (u : String) → String.◌++◌ "\0" u ≡ String.◌∷◌ "\0" u
nul_cons u = cons-append "\0" "" u ∙ ap (String.◌∷◌ "\0") (nil-append u)

-- A common prefix can be taken off.
pub append_cancel : (s u v : String) → String.◌++◌ s u ≡ String.◌++◌ s v → u ≡ v
append_cancel String.[] u v e = sym (nil-append u) ∙ e ∙ nil-append v
append_cancel (String.◌∷◌ c s) u v e =
    let (same, tails) = cons_injective c c _ _ (sym (cons-append c s u) ∙ e ∙ cons-append c s v) in
    append_cancel s u v tails

pub not_empty : (s : String) → s ≢ "" → (s == "") ≡ false
not_empty s ne = ground (arith, eq_iff s "")

pub not_empty-cons : (c : Char) (s : String) → (String.◌∷◌ c s == "") ≡ false
not_empty-cons c s = not_empty _ (cons-ne-nil c s)

pub not_empty-append : (c : Char) (p s : String) → (String.◌++◌ (String.◌∷◌ c p) s == "") ≡ false
not_empty-append c p s = ap (λ t. t == "") (cons-append c p s) ∙ not_empty-cons c (String.◌++◌ p s)

pub not_empty-append_right : (s t : String) → (t == "") ≡ false → (String.◌++◌ s t == "") ≡ false
not_empty-append_right String.[] t h = ap (λ u. u == "") (nil-append t) ∙ h
not_empty-append_right (String.◌∷◌ c s) t h = not_empty-append c s t
