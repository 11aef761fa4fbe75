-- ===== src/Js/Trim.antt =====
-- `trim`, `endsWith` and tests of every character of a text.
use Prim.Native.Char.{Char, code}
use text.Mathlib.TextLemmas.{nil-append, cons-append}
use tropek.Prelude.{
  ℕ, String, ◌≡◌, refl, ap, ◌∙◌, Bool, true, false, not, ◌&&◌, ◌||◌, arith, ◌==◌, eqb,
  if◌then◌else◌, is_some, eqb_refl,
}
use tropek.Js.Text.{◌+++◌}
use tropek.Js.Text.{is_white_space}
use tropek.Js.Digits.{strip_prefix}
use tropek.Js.Text.Join.{not_empty-cons, not_empty-append_right}

unfoldable pub trim_start : String → String
trim_start String.[] = String.[]
trim_start (String.◌∷◌ c s) =
    let rest = trim_start s in if is_white_space (code c) then rest else String.◌∷◌ c s

unfoldable pub trim_end : String → String
trim_end String.[] = String.[]
trim_end (String.◌∷◌ c s) =
    let rest = trim_end s in
    if is_white_space (code c) && rest == "" then String.[] else String.◌∷◌ c rest

unfoldable pub trim : String → String
unfolding trim_start trim_end
trim s = trim_end (trim_start s)

-- Every character has a code that passes the test.
unfoldable pub every : (ℕ → Bool) → String → Bool
every p String.[] = true
every p (String.◌∷◌ c s) = p (code c) && every p s

-- The first character has this code.
unfoldable pub starts : ℕ → String → Bool
starts n String.[] = false
starts n (String.◌∷◌ c s) = eqb n (code c)

-- `s.endsWith(c)` and, where it does, `s.slice(0, -1)`.
unfoldable pub split_last : ℕ → String → Bool × String
split_last n String.[] = (false, String.[])
split_last n (String.◌∷◌ c s) =
    let rest = split_last n s in
    if s == "" && eqb n (code c) then (true, String.[]) else (rest.0, String.◌∷◌ c rest.1)

-- `s.includes(part)`
unfoldable pub includes : String → String → Bool
unfolding strip_prefix
includes part String.[] = part == ""
includes part (String.◌∷◌ c s) = is_some (strip_prefix part (String.◌∷◌ c s)) || includes part s

pub every-append : (p : ℕ → Bool) (s t : String) → every p (s +++ t) ≡ (every p s && every p t)
unfolding every
every-append p String.[] t = ap (every p) (nil-append t)
every-append p (String.◌∷◌ c s) t =
    ap (every p) (cons-append c s t) ∙ ground (arith, every-append p s t)

pub starts-append :
    (n : ℕ) (s t : String) → starts n s ≡ false → starts n t ≡ false → starts n (s +++ t) ≡ false
unfolding starts
starts-append n String.[] t h k = ap (starts n) (nil-append t) ∙ k
starts-append n (String.◌∷◌ c s) t h k = ap (starts n) (cons-append c s t) ∙ h

abbrev pub not_white : ℕ → Bool
not_white n = not (is_white_space n)

trim_start-every : (s : String) → every not_white s ≡ true → trim_start s ≡ s
unfolding trim_start every
trim_start-every String.[] h = refl
trim_start-every (String.◌∷◌ c s) h = ground (arith, h)

trim_end-every : (s : String) → every not_white s ≡ true → trim_end s ≡ s
unfolding trim_end every
trim_end-every String.[] h = refl
trim_end-every (String.◌∷◌ c s) h = ground (arith, h, trim_end-every s)

-- A text without white space is trimmed already.
pub trim-every : (s : String) → every not_white s ≡ true → trim s ≡ s
unfolding trim
trim-every s h = ap trim_end (trim_start-every s h) ∙ trim_end-every s h

pub split_last-append :
    (c : Char) (s : String) → split_last (code c) (s +++ String.◌∷◌ c String.[]) ≡ (true, s)
unfolding split_last
split_last-append c String.[] =
    ap (split_last (code c)) (nil-append (String.◌∷◌ c String.[])) ∙ rw (eqb_refl (code c)) refl
split_last-append c (String.◌∷◌ d s) =
    ap (split_last (code c)) (cons-append d s (String.◌∷◌ c String.[]))
    ∙ rw
        (
          not_empty-append_right s (String.◌∷◌ c String.[]) (not_empty-cons c String.[]),
          split_last-append c s,
        )
        refl

pub split_last-every :
    (n : ℕ) (s : String) → every (λ m. not (eqb n m)) s ≡ true → split_last n s ≡ (false, s)
unfolding split_last every
split_last-every n String.[] h = refl
split_last-every n (String.◌∷◌ c s) h =
    let miss : eqb n (code c) ≡ false = ground (arith, h) in
    let rest = split_last-every n s (ground (arith, h)) in rw (miss, rest) (ground arith)

-- A test that follows from another one.
pub every-of_every :
    (p q : ℕ → Bool) (s : String)
    → ((n : ℕ) → p n ≡ true → q n ≡ true)
    → every p s ≡ true
    → every q s ≡ true
unfolding every
every-of_every p q String.[] f h = refl
every-of_every p q (String.◌∷◌ c s) f h = ground (arith, h, f (code c), every-of_every p q s f)
