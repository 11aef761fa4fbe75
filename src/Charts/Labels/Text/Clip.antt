-- ===== src/Charts/Labels/Text/Clip.antt =====
-- What `clipLabelText` finds.
use tropek.Prelude.{
  ℕ, zero, suc, ◌+◌, ◌-◌, ◌/◌, ◌≤◌, ◌<◌, ◌≡◌, refl, ◌⊎◌, inl, inr, Bool, true, false, some, List,
  arith, ltb, leb, Bool-cases, length, max,
}
use tropek.Charts.Labels.Text.{
  max_label_width_px, clipped, longest_prefix, estimate_label_width, candidate_fits,
  clip_label_text,
}

-- What the search promises: a number within the bounds that passes the test, or is the lower bound,
-- and whose successor fails it, or is above the upper bound.
pub record IsEdge (fits : ℕ → Bool) (low high n : ℕ) : Type 0 where
  pub above : low ≤ n
  pub below : n ≤ max low high
  pub passes : (n ≡ low) ⊎ (fits n ≡ true)
  pub stops : (high ≤ n) ⊎ (fits (suc n) ≡ false)

IsEdge-here : (fits : ℕ → Bool) (low high : ℕ) → high ≤ low → IsEdge fits low high low
IsEdge-here fits low high le = record {
  above = omega arith;
  below = omega arith;
  passes = inl refl;
  stops = inl le;
}

IsEdge-upper :
    (fits : ℕ → Bool) (low mid high n : ℕ)
    → low ≤ mid
    → mid ≤ high
    → fits mid ≡ true
    → IsEdge fits mid high n
    → IsEdge fits low high n
IsEdge-upper fits low mid high n le le' h e = record {
  above = let l = e.above in omega arith;
  below = let l = e.below in omega arith;
  passes = elim e.passes [ inl same ↦ inr (rw same h) | inr ok ↦ inr ok ];
  stops = e.stops;
}

IsEdge-lower :
    (fits : ℕ → Bool) (low mid high n : ℕ)
    → low < mid
    → mid ≤ high
    → fits mid ≡ false
    → IsEdge fits low (mid - 1) n
    → IsEdge fits low high n
IsEdge-lower fits low mid high n lt le h e = record {
  above = e.above;
  below = let l = e.below in omega arith;
  passes = e.passes;
  stops = elim e.stops [
    | inl top ↦ let l = e.below in let same : suc n ≡ mid = omega arith in inr (rw same h)
    | inr fails ↦ inr fails
  ];
}

-- The search ends with fuel for the width of its interval. Its result is within the bounds, passes
-- the test unless it is the lower bound, and cannot be made longer by one.
pub longest_prefix_lem :
    (fits : ℕ → Bool) (fuel low high : ℕ)
    → high ≤ low + fuel
    → (n : ℕ) × (longest_prefix fits fuel low high ≡ some n) × IsEdge fits low high n
unfolding longest_prefix
longest_prefix_lem fits zero low high le =
    let stop : ltb low high ≡ false = ground arith in
    (low, rw stop, IsEdge-here fits low high (omega arith))
longest_prefix_lem fits (suc fuel) low high le = elim (Bool-cases (ltb low high)) [
  | inr stop ↦ (low, rw stop, IsEdge-here fits low high (ground arith))
  | inl go ↦
      let mid = (low + high + 1) / 2 in
      let above : low < mid = ground arith in
      let below : mid ≤ high = ground arith in
      elim (Bool-cases (fits mid)) [
        | inl ok ↦
            let (n, e, edge) = longest_prefix_lem fits fuel mid high (omega arith) in
            (n, rw (go, ok) e, IsEdge-upper fits low mid high n (omega arith) below ok edge)
        | inr miss ↦
            let (n, e, edge) = longest_prefix_lem fits fuel low (mid - 1) (omega arith) in
            (n, rw (go, miss) e, IsEdge-lower fits low mid high n above below miss edge)
      ]
]

module _ (text_px : List ℕ → ℕ) where
  -- Whatever the canvas measures, the text of a label is found, and its pill is no wider than the
  -- limit, where the first unit with the ellipsis is not.
  pub clip_label_text-fits :
      (text : List ℕ)
      → candidate_fits text_px text 1 ≡ true
      → (label : List ℕ) × (clip_label_text text_px text ≡ some label)
        × (estimate_label_width text_px label ≤ max_label_width_px)
  unfolding clip_label_text candidate_fits estimate_label_width
  clip_label_text-fits text first =
      elim (Bool-cases (leb (estimate_label_width text_px text) max_label_width_px)) [
        | inl short ↦ (text, rw short, ground arith)
        | inr long ↦
            let (n, e, edge) =
              longest_prefix_lem (candidate_fits text_px text) (length text) 1 (length text)
                (omega arith) in
            let ok : candidate_fits text_px text n ≡ true = elim edge.passes [
              | inl same ↦ rw same first
              | inr ok ↦ ok
            ] in
            (clipped text n, rw (long, e), ground arith)
      ]
