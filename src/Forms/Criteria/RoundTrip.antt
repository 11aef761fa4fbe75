-- ===== src/Forms/Criteria/RoundTrip.antt =====
-- Criteria written to a text and read again: parseCriteria and serializeCriteria of
-- ui/src/features/registry/forms/criteriaUtils.ts.
use Prim.Native.Char.{Char, code}
use text.Mathlib.TextLemmas.{nil-append, append-nil, cons-append}
use tropek.Prelude.{
  ℕ, String, ◌≡◌, refl, ap, ◌∙◌, inl, inr, Bool, true, false, not, ◌&&◌, Option, none, some, arith,
  ◌==◌, eqb, if◌then◌else◌, Bool-cases, and_then, eqb→eq,
}
use tropek.Js.Text.{◌+++◌}
use tropek.Js.Text.{is_white_space}
use tropek.Js.Text.Join.{not_empty-append}
use tropek.Js.Number.{NumberText}
use tropek.Js.Digits.{strip_prefix, strip_prefix-append}
use tropek.Js.Trim.{
  split_last, every, starts, starts-append, every-append, trim-every, split_last-append,
  split_last-every, every-of_every, not_white,
}
use tropek.Forms.Criteria.{
  Operator, Sign, CriteriaParts, operator_text, operators, sign_text, parse_operator, parse_sign,
  read_number, read_signed, parse_trimmed, parse_criteria, serialize_criteria,
}

-- The texts of numbers: no white space, no percent sign and no equals sign.
abbrev pub is_number_unit : ℕ → Bool
is_number_unit n = not_white n && (not (eqb 37 n) && not (eqb 61 n))

-- A number that prints as such a text and is read back from it.
pub record ReadsBack (numbers : NumberText) (value : numbers.Number) : Type 0 where
  pub parse_float-print : numbers.parse_float (numbers.print value) ≡ some value
  pub print-units : every is_number_unit (numbers.print value) ≡ true

-- It prints without a sign, as a number that is not negative does.
abbrev pub IsUnsigned : String → Type 0
IsUnsigned s = (starts 43 s ≡ false) × (starts 45 s ≡ false)

strip_prefix-starts :
    (c : Char) (p s : String) → starts (code c) s ≡ false → strip_prefix (String.◌∷◌ c p) s ≡ none
unfolding strip_prefix starts
strip_prefix-starts c p String.[] h = refl
strip_prefix-starts c p (String.◌∷◌ d s) h = rw h refl

starts-every :
    (n : ℕ) (p : ℕ → Bool) (s : String) → p n ≡ false → every p s ≡ true → starts n s ≡ false
unfolding starts every
starts-every n p String.[] h e = refl
starts-every n p (String.◌∷◌ c s) h e = elim (Bool-cases (eqb n (code c))) [
  | inl k ↦ ground (arith, h, e, ap p (eqb→eq n (code c) k))
  | inr k ↦ k
]

abbrev percent_text : Bool → String
percent_text percent = if percent then "%" else ""

without_percent :
    (percent : Bool) (s : String)
    → every is_number_unit s ≡ true
    → split_last 37 (s +++ percent_text percent) ≡ (percent, s)
without_percent true s h = split_last-append "%" s
without_percent false s h =
    ap (split_last 37) (append-nil s)
    ∙ split_last-every 37 s
        (every-of_every is_number_unit (λ m. not (eqb 37 m)) s (λ n k. ground (arith, k)) h)

single-append : (c : Char) (s : String) → String.◌∷◌ c String.[] +++ s ≡ String.◌∷◌ c s
single-append c s = cons-append c String.[] s ∙ ap (String.◌∷◌ c) (nil-append s)

parse_sign-sign_text :
    (sign : Option Sign) (s : String)
    → (sign ≡ none → IsUnsigned s)
    → parse_sign (sign_text sign +++ s) ≡ (sign, s)
unfolding parse_sign strip_prefix
parse_sign-sign_text none s h =
    let (plus, minus) = h refl in
    ap parse_sign (nil-append s)
    ∙ rw (strip_prefix-starts "+" "" s plus, strip_prefix-starts "-" "" s minus) refl
parse_sign-sign_text (some Sign.plus) s h = ap parse_sign (single-append "+" s)
parse_sign-sign_text (some Sign.minus) s h = ap parse_sign (single-append "-" s)

parse_operator-operator_text :
    (op : Operator) (s : String)
    → starts 61 s ≡ false
    → parse_operator operators (operator_text op +++ s) ≡ some (op, s)
unfolding parse_operator strip_prefix
parse_operator-operator_text Operator.less s h =
    ap (parse_operator operators) (single-append "<" s) ∙ rw (strip_prefix-starts "=" "" s h) refl
parse_operator-operator_text Operator.less_equal s h = rw (strip_prefix-append "<=" s) refl
parse_operator-operator_text Operator.greater s h =
    ap (parse_operator operators) (single-append ">" s) ∙ rw (strip_prefix-starts "=" "" s h) refl
parse_operator-operator_text Operator.greater_equal s h =
    ap (parse_operator operators)
      (cons-append ">" "=" s ∙ ap (String.◌∷◌ ">") (single-append "=" s))
parse_operator-operator_text Operator.equal s h =
    ap (parse_operator operators) (single-append "=" s)

every-sign_text : (sign : Option Sign) → every not_white (sign_text sign) ≡ true
unfolding every is_white_space
every-sign_text none = refl
every-sign_text (some Sign.plus) = refl
every-sign_text (some Sign.minus) = refl

every-operator_text : (op : Operator) → every not_white (operator_text op) ≡ true
unfolding every is_white_space
every-operator_text Operator.less = refl
every-operator_text Operator.less_equal = refl
every-operator_text Operator.greater = refl
every-operator_text Operator.greater_equal = refl
every-operator_text Operator.equal = refl

not_empty-operator_text : (op : Operator) (s : String) → ((operator_text op +++ s) == "") ≡ false
not_empty-operator_text Operator.less s = not_empty-append "<" "" s
not_empty-operator_text Operator.less_equal s = not_empty-append "<" "=" s
not_empty-operator_text Operator.greater s = not_empty-append ">" "" s
not_empty-operator_text Operator.greater_equal s = not_empty-append ">" "=" s
not_empty-operator_text Operator.equal s = not_empty-append "=" "" s

starts-sign_text : (sign : Option Sign) → starts 61 (sign_text sign) ≡ false
unfolding starts
starts-sign_text none = refl
starts-sign_text (some Sign.plus) = refl
starts-sign_text (some Sign.minus) = refl

every-percent_text : (percent : Bool) → every not_white (percent_text percent) ≡ true
unfolding every is_white_space
every-percent_text true = refl
every-percent_text false = refl

starts-percent_text :
    (n : ℕ) (percent : Bool) → eqb n 37 ≡ false → starts n (percent_text percent) ≡ false
unfolding starts
starts-percent_text n true h = h
starts-percent_text n false h = refl

module _ (numbers : NumberText) where
  -- What serializeCriteria writes after the operator.
  abbrev after_operator : CriteriaParts numbers.Number → String
  after_operator parts =
      sign_text parts.sign +++ numbers.print parts.value +++ percent_text parts.percent

  starts-after_operator :
      (parts : CriteriaParts numbers.Number)
      → ReadsBack numbers parts.value
      → starts 61 (after_operator parts) ≡ false
  unfolding is_white_space
  starts-after_operator parts back =
      starts-append 61 (sign_text parts.sign) _ (starts-sign_text parts.sign) (
        starts-append 61 (numbers.print parts.value) (percent_text parts.percent)
          (starts-every 61 is_number_unit (numbers.print parts.value) refl back.print-units)
          (starts-percent_text 61 parts.percent refl))

  every-serialize_criteria :
      (parts : CriteriaParts numbers.Number)
      → ReadsBack numbers parts.value
      → every not_white (serialize_criteria numbers parts) ≡ true
  unfolding serialize_criteria
  every-serialize_criteria parts back =
      let value = numbers.print parts.value in
      let printed =
        every-of_every is_number_unit not_white value (λ n k. ground (arith, k)) back.print-units in
      rw
        (
          every-append not_white (operator_text parts.operator) (after_operator parts),
          every-append not_white (sign_text parts.sign) (value +++ percent_text parts.percent),
          every-append not_white value (percent_text parts.percent),
          every-operator_text parts.operator,
          every-sign_text parts.sign,
          printed,
          every-percent_text parts.percent,
        )
        refl

  read_signed-after_operator :
      (parts : CriteriaParts numbers.Number)
      → ReadsBack numbers parts.value
      → (parts.sign ≡ none → IsUnsigned (numbers.print parts.value +++ percent_text parts.percent))
      → read_signed numbers parts.operator (parse_sign (after_operator parts)) ≡ some parts
  unfolding read_signed read_number
  read_signed-after_operator parts back unsigned =
      let number = numbers.print parts.value +++ percent_text parts.percent in
      ap (read_signed numbers parts.operator) (parse_sign-sign_text parts.sign number unsigned)
      ∙ ap (read_number numbers parts.operator parts.sign)
          (without_percent parts.percent (numbers.print parts.value) back.print-units)
      ∙ rw (back.parse_float-print) refl

  IsUnsigned-number :
      (s : String) (percent : Bool) → IsUnsigned s → IsUnsigned (s +++ percent_text percent)
  IsUnsigned-number s percent (plus, minus) = (
    starts-append 43 s _ plus (starts-percent_text 43 percent refl),
    starts-append 45 s _ minus (starts-percent_text 45 percent refl),
  )

  -- Criteria that are written to a text are read back from it, where the number prints as a text
  -- without white space, percent sign and equals sign that is read back, and, where the criteria
  -- have no sign, prints without a sign.
  pub parse_criteria-serialize_criteria :
      (parts : CriteriaParts numbers.Number)
      → ReadsBack numbers parts.value
      → (parts.sign ≡ none → IsUnsigned (numbers.print parts.value))
      → parse_criteria numbers (serialize_criteria numbers parts) ≡ some parts
  unfolding parse_criteria serialize_criteria parse_trimmed
  parse_criteria-serialize_criteria parts back unsigned =
      let text = operator_text parts.operator +++ after_operator parts in
      let found =
        parse_operator-operator_text parts.operator (after_operator parts)
          (starts-after_operator parts back) in
      ap (parse_trimmed numbers) (trim-every text (every-serialize_criteria parts back))
      ∙ rw (not_empty-operator_text parts.operator (after_operator parts)) (
          ap (λ o. and_then o λ q. read_signed numbers q.0 (parse_sign q.1)) found
          ∙ read_signed-after_operator parts back
              λ e. IsUnsigned-number (numbers.print parts.value) parts.percent (unsigned e))
