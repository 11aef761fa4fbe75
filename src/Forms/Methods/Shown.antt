-- ===== src/Forms/Methods/Shown.antt =====
-- What the table of features/registry/forms/MethodCriteriaTable.tsx shows after an input.
use tropek.Prelude.{
  String, ◌≡◌, refl, sym, ap, ◌∙◌, inl, inr, Bool, true, false, Option, none, some, List, [], ◌∷◌,
  arith, ◌==◌, eq_iff, if◌then◌else◌, Bool-cases, Option-cases, or_default, and_then, is_some,
}
use tropek.Js.Map.{Map, get, set, get-set}
use tropek.Js.Map.{delete_key, get-delete_key}
use tropek.Js.Number.{NumberText}
use tropek.Entities.Slos.{MethodCriteriaOverride}
use tropek.Forms.Methods.{
  EffectiveCriteria, Patch, no_override, first_of, get_effective, merge_patch, keep_pass, weight_of,
  keep_weight, keep_key, clean, has_fields, update_method,
}

module _ (numbers : NumberText) where
  abbrev Override : Type 0
  Override = MethodCriteriaOverride numbers.Number

  -- The values of the inputs of a row.
  abbrev pub Inputs : Type 0
  Inputs = String × numbers.Number × Bool

  abbrev pub inputs : EffectiveCriteria numbers.Number → Inputs
  inputs e = (e.pass, e.weight, e.key_sli)

  -- The weight that a text is: its number, and one where it has none or zero.
  abbrev read_weight : String → numbers.Number
  read_weight text =
      or_default
        (and_then (numbers.parse_float text)
          (λ w. if numbers.same w (numbers.of_ℕ 0) then none else some w))
        (numbers.of_ℕ 1)

  weight_of-read_weight : (text : String) → weight_of numbers text ≡ read_weight text
  unfolding weight_of
  weight_of-read_weight text = elim (Option-cases (numbers.parse_float text)) [
    | inl h ↦ rw h refl
    | inr (w, h) ↦ rw h (elim (Bool-cases (numbers.same w (numbers.of_ℕ 0))) [
      | inl k ↦ rw k refl
      | inr k ↦ rw k refl
    ])
  ]

  -- What an input changes of them.
  abbrev pub entered : Patch numbers.Number → Inputs → Inputs
  entered (Patch.pass_text text) (pass, weight, key) = (text, weight, key)
  entered (Patch.weight_text text) (pass, weight, key) = (pass, read_weight text, key)
  entered (Patch.key_flag flag) (pass, weight, key) = (pass, weight, flag)

  module _ (pass : String) (weight : numbers.Number) where
    inputs_of : Override → Inputs
    inputs_of o = (
      or_default (first_of o.pass_threshold) pass,
      or_default o.weight weight,
      or_default o.key_sli false,
    )

    inputs-get_effective :
        (criteria : Map Override) (method : String)
        → inputs (get_effective numbers pass weight criteria method)
          ≡ inputs_of (or_default (get criteria method) (no_override numbers))
    unfolding get_effective inputs_of
    inputs-get_effective criteria method = elim (Option-cases (get criteria method)) [
      | inl h ↦ rw h refl
      | inr (o, h) ↦ rw h refl
    ]

    inputs_of-merge_patch :
        (patch : Patch numbers.Number) (o : Override)
        → inputs_of (merge_patch numbers patch o) ≡ entered patch (inputs_of o)
    unfolding inputs_of merge_patch
    inputs_of-merge_patch (Patch.pass_text text) o = refl
    inputs_of-merge_patch (Patch.weight_text text) o =
        ap (λ w. (or_default (first_of o.pass_threshold) pass, w, or_default o.key_sli false))
          (weight_of-read_weight text)
    inputs_of-merge_patch (Patch.key_flag flag) o = refl

    first_of-keep_pass :
        (ts : Option (List String))
        → or_default (first_of (keep_pass pass ts)) pass ≡ or_default (first_of ts) pass
    first_of-keep_pass none = refl
    first_of-keep_pass (some []) = refl
    first_of-keep_pass (some (t ∷ ts)) = elim (Bool-cases (t == pass)) [
      | inl h ↦ rw h (sym ((eq_iff t pass).0 h))
      | inr h ↦ rw h refl
    ]

    or_default-keep_key :
        (key : Option Bool) → or_default (keep_key key) false ≡ or_default key false
    or_default-keep_key none = refl
    or_default-keep_key (some true) = refl
    or_default-keep_key (some false) = refl

    module _ (same-eq : (m n : numbers.Number) → numbers.same m n ≡ true → m ≡ n) where
      or_default-keep_weight :
          (w : Option numbers.Number)
          → or_default (keep_weight numbers weight w) weight ≡ or_default w weight
      or_default-keep_weight none = refl
      or_default-keep_weight (some w) = elim (Bool-cases (numbers.same w weight)) [
        | inl h ↦ rw h (sym (same-eq w weight h))
        | inr h ↦ rw h refl
      ]

      inputs_of-clean : (o : Override) → inputs_of (clean numbers pass weight o) ≡ inputs_of o
      unfolding inputs_of clean
      inputs_of-clean o = cc (
        first_of-keep_pass o.pass_threshold,
        or_default-keep_weight o.weight,
        or_default-keep_key o.key_sli,
      )

      none_of : {A : Type 0} (o : Option A) → is_some o ≡ false → o ≡ none
      none_of none h = refl
      none_of (some a) h = ground (arith, h)

      clean-empty :
          (o : Override)
          → has_fields numbers (clean numbers pass weight o) ≡ false
          → clean numbers pass weight o ≡ no_override numbers
      unfolding clean has_fields
      clean-empty o h = cc (
        none_of (keep_pass pass o.pass_threshold) (ground (arith, h)),
        none_of (keep_weight numbers weight o.weight) (ground (arith, h)),
        none_of (keep_key o.key_sli) (ground (arith, h)),
      )

      stored :
          (criteria : Map Override) (method other : String) (cleaned : Override)
          → (has_fields numbers cleaned ≡ false → cleaned ≡ no_override numbers)
          → or_default
              (get
                (if has_fields numbers cleaned
                  then set criteria method cleaned
                  else delete_key criteria method)
                other)
              (no_override numbers)
            ≡ (if method == other
                then cleaned
                else or_default (get criteria other) (no_override numbers))
      stored criteria method other cleaned empty = elim (Bool-cases (has_fields numbers cleaned)) [
        | inl h ↦ rw (h, get-set criteria method other cleaned) (ground arith)
        | inr h ↦ rw (h, get-delete_key criteria method other) (ground (arith, empty h))
      ]

      -- An input of the table changes its own value in the row of its method, to the text, the flag
      -- or the number of the text (one where it has no number or zero), and no value of another input
      -- of that row or of the others, where numbers that are `===` are equal. Which values the table
      -- marks as overridden is not a part of this.
      pub get_effective-update_method :
          (criteria : Map Override) (method other : String) (patch : Patch numbers.Number)
          → let next = update_method numbers pass weight criteria method patch in
            let before = inputs (get_effective numbers pass weight criteria other) in
            inputs (get_effective numbers pass weight next other)
            ≡ (if method == other then entered patch before else before)
      unfolding update_method
      get_effective-update_method criteria method other patch =
          let prev = or_default (get criteria method) (no_override numbers) in
          let merged = merge_patch numbers patch prev in
          let cleaned = clean numbers pass weight merged in
          let next = update_method numbers pass weight criteria method patch in
          let before = or_default (get criteria other) (no_override numbers) in
          inputs-get_effective next other
          ∙ ap inputs_of (stored criteria method other cleaned (clean-empty merged))
          ∙ elim (Bool-cases (method == other)) [
            | inl h ↦ rw h (
                inputs_of-clean merged
                ∙ inputs_of-merge_patch patch prev
                ∙ ap (entered patch) (
                    ap (λ k. inputs_of (or_default (get criteria k) (no_override numbers)))
                      ((eq_iff method other).0 h)
                    ∙ sym (inputs-get_effective criteria other)))
            | inr h ↦ rw h (sym (inputs-get_effective criteria other))
          ]
