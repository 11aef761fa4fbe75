-- ===== src/Navigator/GroupData/Merge.antt =====
-- How `buildGroupHeatmapData` merges the evaluations of one asset, slot and evaluation name.
use tropek.Prelude.{
  ℕ, suc, ◌+◌, ◌≤◌, String, ◌≡◌, refl, sym, ◌∙◌, ◌⊎◌, inl, inr, Option, none, some, List, [], ◌∷◌,
  arith, ◌==◌, eq_iff, ltb, Bool-cases, length, filter, All, Any,
}
use tropek.Js.Map.{Map, get, set, get-set}
use tropek.Js.Number.{Arithmetic}
use tropek.Results.{HeatmapResult}
use tropek.Navigator.GroupData.{
  Evaluation, result_rank, worse, effective_result, score_of, Merged, cell_key, merge, merge_all,
}

worse_lem :
    (x y : HeatmapResult)
    → (result_rank x ≤ result_rank (worse x y))
      × (result_rank y ≤ result_rank (worse x y))
      × ((worse x y ≡ x) ⊎ (worse x y ≡ y))
unfolding worse
worse_lem x y = elim (Bool-cases (ltb (result_rank x) (result_rank y))) [
  | inl e ↦ rw e (ground arith, ground arith, inr refl)
  | inr e ↦ rw e (ground arith, ground arith, inl refl)
]

module _ (a : Arithmetic) where
  open a use {Number, of_ℕ, add, mul, div}

  abbrev pub of_key : String → List (Evaluation Number) → List (Evaluation Number)
  of_key k evals = filter (λ e. cell_key a e == k) evals

  unfoldable pub merged_from : Option (Merged a) → List (Evaluation Number) → Option (Merged a)
  merged_from o [] = o
  merged_from o (e ∷ es) = merged_from (some (merge a o e)) es

  get-merge_all :
      (m : Map (Merged a)) (es : List (Evaluation Number)) (k : String)
      → get (merge_all a m es) k ≡ merged_from (get m k) (of_key k es)
  unfolding merge_all merged_from
  get-merge_all m [] k = refl
  get-merge_all m (e ∷ es) k =
      rw (get-merge_all (set m (cell_key a e) (merge a (get m (cell_key a e)) e)) es k) (
        rw (get-set m (cell_key a e) k (merge a (get m (cell_key a e)) e))
          (elim (Bool-cases (cell_key a e == k)) [
            | inl h ↦ rw h (rw ((eq_iff (cell_key a e) k).0 h))
            | inr h ↦ rw h
          ]))

  -- The mean as the code keeps it: from `n` scores with mean `s` on, one score at a time.
  abbrev pub running_mean : Number → ℕ → List (Evaluation Number) → Number
  running_mean s n [] = s
  running_mean s n (e ∷ es) =
      running_mean (div (add (mul s (of_ℕ n)) (score_of a e)) (of_ℕ (n + 1))) (n + 1) es

  abbrev IsWorst : HeatmapResult → List (Evaluation Number) → Type 0
  IsWorst r es = All (λ e. result_rank (effective_result a e) ≤ result_rank r) es

  abbrev IsShown : HeatmapResult → List (Evaluation Number) → Type 0
  IsShown r es = Any (λ e. effective_result a e ≡ r) es

  step_above :
      (x y d : HeatmapResult)
      → result_rank (worse x y) ≤ result_rank d
      → (result_rank x ≤ result_rank d) × (result_rank y ≤ result_rank d)
  step_above x y d h = omega (arith, worse_lem x y)

  step_shown : (x y d : HeatmapResult) (P : Type 0) → (worse x y ≡ d) ⊎ P → (x ≡ d) ⊎ ((y ≡ d) ⊎ P)
  step_shown x y d P (inr p) = inr (inr p)
  step_shown x y d P (inl e) = chosen (worse_lem x y).2
    where
      chosen : (worse x y ≡ x) ⊎ (worse x y ≡ y) → (x ≡ d) ⊎ ((y ≡ d) ⊎ P)
      chosen (inl f) = inl (sym f ∙ e)
      chosen (inr f) = inr (inl (sym f ∙ e))

  merged_from_lem :
      (c : Merged a) (es : List (Evaluation Number))
      → (d : Merged a) × (merged_from (some c) es ≡ some d)
        × (d.count ≡ c.count + length es)
        × (d.score ≡ running_mean c.score c.count es)
        × (result_rank c.result ≤ result_rank d.result)
        × IsWorst d.result es
        × ((c.result ≡ d.result) ⊎ IsShown d.result es)
  unfolding merged_from merge
  merged_from_lem c [] = (c, refl, omega arith, refl, omega arith, tt, inl refl)
  merged_from_lem c (e ∷ es) =
      let (d, same, count, score, above, worst, shown) = merged_from_lem (merge a (some c) e) es in
      let (old, new) = step_above c.result (effective_result a e) d.result above in
      (
        d,
        same,
        omega arith,
        score,
        old,
        (new, worst),
        step_shown c.result (effective_result a e) d.result (IsShown d.result es) shown,
      )

  merged_from_first :
      (e : Evaluation Number) (es : List (Evaluation Number))
      → (d : Merged a) × (merged_from none (e ∷ es) ≡ some d)
        × (d.count ≡ suc (length es))
        × (d.score ≡ running_mean (score_of a e) 1 es)
        × IsWorst d.result (e ∷ es)
        × IsShown d.result (e ∷ es)
  unfolding merged_from merge
  merged_from_first e es =
      let (d, same, count, score, above, worst, shown) = merged_from_lem (merge a none e) es in
      (d, same, omega arith, score, (above, worst), shown)

  -- What is stored for a key: nothing where no evaluation has it; else the number of evaluations
  -- that have it, the running mean of their scores, and a result that one of them has and that
  -- none of them passes in severity.
  abbrev pub Summarises : List (Evaluation Number) → Option (Merged a) → Type 0
  Summarises [] o = o ≡ none
  Summarises (e ∷ es) o =
      (d : Merged a) × (o ≡ some d)
      × (d.count ≡ length (e ∷ es))
      × (d.score ≡ running_mean (score_of a e) 1 es)
      × IsWorst d.result (e ∷ es)
      × IsShown d.result (e ∷ es)

  merged_from-Summarises : (es : List (Evaluation Number)) → Summarises es (merged_from none es)
  unfolding merged_from
  merged_from-Summarises [] = refl
  merged_from-Summarises (e ∷ es) = merged_from_first e es

  -- Under each key `cellMap` sums up the evaluations with that key and no others: their number,
  -- the running mean of their scores, and the most severe of their results.
  pub merge_all-Summarises :
      (evals : List (Evaluation Number)) (k : String)
      → Summarises (of_key k evals) (get (merge_all a [] evals) k)
  unfolding get
  merge_all-Summarises evals k =
      rw (get-merge_all [] evals k) (merged_from-Summarises (of_key k evals))
