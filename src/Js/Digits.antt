-- ===== src/Js/Digits.antt =====
-- Regular expressions and `Number` on texts of digits: `^\d+$` and its value, a text that starts
-- with another, and patterns of a fixed length.
use Prim.Native.Char.{Char, code}
use text.Mathlib.TextLemmas.{nil-append, cons-append}
use tropek.Prelude.{
  ℕ, zero, suc, ◌+◌, ◌-◌, ◌*◌, ◌≤◌, ◌<◌, String, ◌≡◌, refl, ap, ◌∙◌, inl, inr, Bool, true, false,
  not, ◌&&◌, Option, none, some, List, [], ◌∷◌, arith, leb, eqb, if◌then◌else◌, Bool-cases,
  and_then, any, eqb→eq, eqb_refl,
}
use tropek.Js.Text.{◌+++◌}

unfoldable pub is_digit : Char → Bool
is_digit c = leb 48 (code c) && leb (code c) 57

-- The digits read after the number `acc`; none where another character stands.
unfoldable pub digits_from : ℕ → String → Option ℕ
unfolding is_digit
digits_from acc String.[] = some acc
digits_from acc (String.◌∷◌ c s) =
    if is_digit c then digits_from (acc * 10 + (code c - 48)) s else none

-- `/^\d+$/.test(s)` with `Number(s)`.
unfoldable pub digits_value : String → Option ℕ
unfolding digits_from
digits_value String.[] = none
digits_value (String.◌∷◌ c s) = digits_from 0 (String.◌∷◌ c s)

-- `s.startsWith(prefix)`, with what follows.
unfoldable pub strip_prefix : String → String → Option String
strip_prefix String.[] s = some s
strip_prefix (String.◌∷◌ p ps) String.[] = none
strip_prefix (String.◌∷◌ p ps) (String.◌∷◌ c s) =
    if eqb (code p) (code c) then strip_prefix ps s else none

-- One character of a pattern.
pub data Slot : Type 0 where
  digit : Slot
  exactly : Char → Slot

unfoldable pub fits : Slot → Char → Bool
unfolding is_digit
fits Slot.digit c = is_digit c
fits (Slot.exactly d) c = eqb (code d) (code c)

-- `/^...$/.test(s)` for a pattern of fixed length.
unfoldable pub matches : List Slot → String → Bool
unfolding fits
matches [] String.[] = true
matches [] (String.◌∷◌ c s) = false
matches (p ∷ ps) String.[] = false
matches (p ∷ ps) (String.◌∷◌ c s) = fits p c && matches ps s

-- `s.slice(a, a + n)`
unfoldable pub take_text : ℕ → String → String
take_text zero s = ""
take_text (suc n) String.[] = ""
take_text (suc n) (String.◌∷◌ c s) = String.◌∷◌ c (take_text n s)

unfoldable pub drop_text : ℕ → String → String
drop_text zero s = s
drop_text (suc n) String.[] = ""
drop_text (suc n) (String.◌∷◌ c s) = drop_text n s

unfoldable pub slice : ℕ → ℕ → String → String
unfolding take_text drop_text
slice a n s = take_text n (drop_text a s)

digits_value_test : digits_value "0123" ≡ some 123
unfolding digits_value digits_from is_digit
digits_value_test = refl

slice_test : slice 4 2 "20260715" ≡ "07"
unfolding slice take_text drop_text
slice_test = refl

pub digits_from-append :
    (s t : String) (acc : ℕ)
    → digits_from acc (s +++ t) ≡ and_then (digits_from acc s) (λ v. digits_from v t)
unfolding digits_from
digits_from-append String.[] t acc = ap (digits_from acc) (nil-append t)
digits_from-append (String.◌∷◌ c s) t acc =
    ap (digits_from acc) (cons-append c s t)
    ∙ elim (Bool-cases (is_digit c)) [ inl h ↦ rw h (digits_from-append s t _) | inr h ↦ rw h refl ]

pub strip_prefix-append : (p s : String) → strip_prefix p (p +++ s) ≡ some s
unfolding strip_prefix
strip_prefix-append String.[] s = ap (strip_prefix "") (nil-append s)
strip_prefix-append (String.◌∷◌ c p) s =
    ap (strip_prefix (String.◌∷◌ c p)) (cons-append c p s)
    ∙ rw (eqb_refl (code c)) (strip_prefix-append p s)

grown : ℕ → ℕ → ℕ
grown zero acc = acc + 1
grown (suc n) acc = grown n (acc * 10 + 9)

grown_mono : (n a b : ℕ) → a ≤ b → grown n a ≤ grown n b
unfolding grown
grown_mono zero a b h = omega arith
grown_mono (suc n) a b h = grown_mono n _ _ (omega arith)

-- As many digits as a pattern has.
abbrev pub digits : ℕ → List Slot
digits zero = []
digits (suc n) = Slot.digit ∷ digits n

digits_from-lt :
    (n : ℕ) (s : String) (acc v : ℕ)
    → matches (digits n) s ≡ true
    → digits_from acc s ≡ some v
    → v < grown n acc
unfolding digits_from grown matches fits is_digit
digits_from-lt zero String.[] acc v m e = ground (arith, e)
digits_from-lt zero (String.◌∷◌ c s) acc v m e = ground (arith, m)
digits_from-lt (suc n) String.[] acc v m e = ground (arith, m)
digits_from-lt (suc n) (String.◌∷◌ c s) acc v m e = elim (Bool-cases (is_digit c)) [
  | inl d ↦
      let below = digits_from-lt n s (acc * 10 + (code c - 48)) v (rw d at m) (rw d at e) in
      let within : code c ≤ 57 = ground (arith, d) in
      omega (arith, grown_mono n (acc * 10 + (code c - 48)) (acc * 10 + 9) (omega arith))
  | inr d ↦ ground (arith, d)
]

-- Eight digits stand for a number below a hundred million.
pub digits_value-lt :
    (s : String) (v : ℕ) → matches (digits 8) s ≡ true → digits_value s ≡ some v → v < 100000000
unfolding digits_value grown matches
digits_value-lt String.[] v m e = ground (arith, m)
digits_value-lt (String.◌∷◌ c s) v m e = digits_from-lt 8 (String.◌∷◌ c s) 0 v m e

-- A text of digits has none of the other characters.
pub matches-digits_from :
    (ps : List Slot) (s : String) (acc v : ℕ)
    → digits_from acc s ≡ some v
    → any (λ p. elim p [ Slot.digit ↦ false | Slot.exactly c ↦ not (is_digit c) ]) ps ≡ true
    → matches ps s ≡ false
unfolding matches fits digits_from
matches-digits_from [] s acc v e h = ground (arith, h)
matches-digits_from (p ∷ ps) String.[] acc v e h = refl
matches-digits_from (Slot.digit ∷ ps) (String.◌∷◌ c s) acc v e h = elim (Bool-cases (is_digit c)) [
  | inl d ↦ rw d (matches-digits_from ps s _ v (rw d at e) h)
  | inr d ↦ rw d refl
]
matches-digits_from (Slot.exactly x ∷ ps) (String.◌∷◌ c s) acc v e h =
    elim (Bool-cases (eqb (code x) (code c))) [
      | inl d ↦
          let same : code x ≡ code c = eqb→eq (code x) (code c) d in
          elim (Bool-cases (is_digit c)) [
            | inl k ↦ ground (arith, k, h, same, matches-digits_from ps s _ v (rw k at e))
            | inr k ↦ ground (arith, k, e)
          ]
      | inr d ↦ rw d refl
    ]

pub strip_prefix-digits_from :
    (p : Char) (ps s : String) (acc v : ℕ)
    → is_digit p ≡ false
    → digits_from acc s ≡ some v
    → strip_prefix (String.◌∷◌ p ps) s ≡ none
unfolding strip_prefix digits_from is_digit
strip_prefix-digits_from p ps String.[] acc v h e = refl
strip_prefix-digits_from p ps (String.◌∷◌ c s) acc v h e = ground (arith, h, e)

-- Digits that stand for a number other than zero are a number in digits.
pub digits_value-digits_from :
    (s : String) (v : ℕ) → digits_from 0 s ≡ some (suc v) → digits_value s ≡ some (suc v)
unfolding digits_value digits_from
digits_value-digits_from String.[] v e = ground (arith, e)
digits_value-digits_from (String.◌∷◌ c s) v e = e
