-- ===== src/TimeRange/Dated.antt =====
-- Ranges whose `from` can be computed, and that what is written for one is read as one:
-- rangeToParams and parseTimeParams in ui/src/lib/time-range-context.tsx.
use tropek.Prelude.{
  ℕ, suc, String, ◌≡◌, refl, sym, ap, ◌∙◌, ◌⊎◌, inl, inr, false, Option, none, some, arith, ◌==◌,
  Bool-cases, Option-cases, or_default, or_else, map?,
}
use tropek.Js.Text.{◌+++◌, decimal}
use text.Mathlib.TextLemmas.{cons-append}
use mathlib.Core.Option.{some_inj}
use mathlib.Core.Path.{subst}
use tropek.Js.Number.{ℤ, pos, negsuc}
use tropek.Js.Digits.{strip_prefix, strip_prefix-digits_from}
use tropek.Js.Text.Decimal.{digits_from-decimal}
use tropek.TimeRange.{
  RangeMode, StoredRange, default_days, preset_range, Browser, BrowserLaws, show_time,
  compute_from_date, preset_days, parse_absolute_token, parse_absolute, parse_time_params, to_epoch,
  params_of, range_to_params,
}
use tropek.TimeRange.RoundTrip.{preset_days-days}
use tropek.TimeRange.Provider.{has_text, is_absolute, context_from}

preset_days-show_time : (t : Option ℤ) → preset_days (show_time t) ≡ none
unfolding preset_days show_time strip_prefix
preset_days-show_time none = refl
preset_days-show_time (some (pos n)) =
    rw (strip_prefix-digits_from "n" "ow-" (decimal n) 0 n refl (digits_from-decimal n)) refl
preset_days-show_time (some (negsuc n)) = rw (cons-append "-" "" (decimal (suc n))) refl

module _ (b : Browser) where
  compute_from_date_total :
      BrowserLaws b → (iso : String) × (compute_from_date b default_days ≡ some iso)
  unfolding compute_from_date
  compute_from_date_total laws = elim (Option-cases (b.days_back default_days b.now)) [
    | inl h ↦ let date = laws.default_days-date in ground (arith, h, date)
    | inr (d, h) ↦ (b.iso_of (b.start_of_day d), ap (map? (λ d. b.iso_of (b.start_of_day d))) h)
  ]

  or_else_total :
      {A : Type 0} (o e : Option A) → (a : A) × (e ≡ some a) → (a : A) × (or_else o e ≡ some a)
  or_else_total none e h = h
  or_else_total (some a) e h = (a, refl)

  params_of_total :
      BrowserLaws b
      → (mode : RangeMode) (r : StoredRange)
      → (p : String × Option String) × (params_of b mode r ≡ some p)
  unfolding params_of
  params_of_total laws RangeMode.preset r = (_, refl)
  params_of_total laws RangeMode.absolute r =
      let (iso, e) = or_else_total r.from _ (compute_from_date_total laws) in
      (_, ap (map? λ iso. (show_time (b.time_of iso), to_epoch b r.to)) e)

  -- A range that is loaded has parameters: computeFromDate goes thirty days back at most.
  pub range_to_params_total :
      BrowserLaws b
      → (r : StoredRange) → (p : String × Option String) × (range_to_params b r ≡ some p)
  unfolding range_to_params
  range_to_params_total laws r = params_of_total laws r.mode r

  -- The `from` of the range can be computed.
  abbrev pub IsDated : StoredRange → Type 0
  IsDated r = (iso : String) × (context_from b r ≡ some iso)

  parsed_kind :
      (from : String) (to : Option String) (r : StoredRange)
      → parse_time_params b (some from) to ≡ some r
      → IsDated r ⊎ ((n : ℕ) × (preset_days from ≡ some n) × (preset_range n ≡ r))
  unfolding parse_time_params parse_absolute context_from has_text is_absolute
  parsed_kind from to r e = elim (Bool-cases (from == "")) [
    | inl h ↦ ground (arith, h, e)
    | inr h ↦ elim (Option-cases (preset_days from)) [
      | inr (n, k) ↦ inr (n, k, some_inj.0 (rw (h, k) at e))
      | inl k ↦ elim (Option-cases (parse_absolute_token b from false)) [
        | inl l ↦ ground (arith, h, k, l, e)
        | inr (iso, l) ↦ elim (Bool-cases (iso == "")) [
          | inl m ↦ ground (arith, h, k, l, m, e)
          | inr m ↦ inl (subst IsDated (some_inj.0 (rw (h, k, l, m) at e)) (iso, rw m refl))
        ]
      ]
    ]
  ]

  -- What is written for a range whose `from` can be computed is read as a range with that.
  pub params_of-IsDated :
      (mode : RangeMode) (r : StoredRange) (params : String × Option String) (back : StoredRange)
      → r.mode ≡ mode
      → IsDated r
      → params_of b mode r ≡ some params
      → parse_time_params b (some params.0) params.1 ≡ some back
      → IsDated back
  unfolding params_of context_from is_absolute
  params_of-IsDated RangeMode.preset r params back m (iso, k) e parsed =
      let days = or_default r.days default_days in
      elim (parsed_kind params.0 params.1 back parsed) [
        | inl dated ↦ dated
        | inr (n, read, same) ↦
            let from : "now-" +++ decimal days +++ "d" ≡ params.0 = ap (λ p. p.0) (some_inj.0 e) in
            let number : days ≡ n =
              some_inj.0 (sym (preset_days-days days) ∙ ap preset_days from ∙ read) in
            subst IsDated (ap preset_range number ∙ same) (iso, rw m at k)
      ]
  params_of-IsDated RangeMode.absolute r params back m dated e parsed =
      elim (Option-cases (or_else r.from (compute_from_date b default_days))) [
        | inl h ↦ ground (arith, h, e)
        | inr (since, h) ↦
            let from : show_time (b.time_of since) ≡ params.0 =
              ap (λ p. p.0) (some_inj.0 (rw h at e)) in
            elim (parsed_kind params.0 params.1 back parsed) [
              | inl good ↦ good
              | inr (n, read, same) ↦
                  let clash : none ≡ some n =
                    sym (preset_days-show_time (b.time_of since)) ∙ ap preset_days from ∙ read in
                  ground (arith, clash)
            ]
      ]

  pub parse_time_params-no_text :
      (from to : Option String) → has_text from ≡ false → parse_time_params b from to ≡ none
  unfolding parse_time_params has_text
  parse_time_params-no_text none to h = refl
  parse_time_params-no_text (some t) to h = elim (Bool-cases (t == "")) [
    | inl e ↦ rw e refl
    | inr e ↦ ground (arith, e, h)
  ]
