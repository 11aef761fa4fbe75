-- ===== src/Navigator/GroupData/Slots.antt =====
-- The slots that the group views are drawn over.
use tropek.Prelude.{
  String, ◌≡◌, refl, ap, ◌∙◌, inl, inr, Bool, true, false, ◌||◌, List, [], ◌∷◌, map, arith, ◌==◌,
  eq_iff, Bool-cases, any,
}
use tropek.Js.Map.{contains, IsDistinct}
use tropek.Js.Unique.{unique, unique_by-IsDistinct, contains-unique_by}
use tropek.Js.Number.{Arithmetic}
use tropek.Js.Sort.{sort, sort-IsSorted, IsSorted}
use tropek.Navigator.GroupData.{Evaluation, slots_of, slot_score_data, build_group_score_data}
use tropek.Js.Sort.{insert_sorted}

contains-insert_sorted :
    (before : String → String → Bool) (x : String) (ys : List String) (k : String)
    → contains k (insert_sorted before x ys) ≡ (x == k || contains k ys)
unfolding insert_sorted contains
contains-insert_sorted before x [] k = refl
contains-insert_sorted before x (y ∷ ys) k = elim (Bool-cases (before x y)) [
  | inl e ↦ rw e refl
  | inr e ↦ rw (e, contains-insert_sorted before x ys k) (or_swap (y == k) (x == k) (contains k ys))
]
  where
    or_swap : (a b c : Bool) → (a || (b || c)) ≡ (b || (a || c))
    or_swap a b c = ground arith

insert_sorted-IsDistinct :
    (before : String → String → Bool) (x : String) (ys : List String)
    → contains x ys ≡ false
    → IsDistinct ys
    → IsDistinct (insert_sorted before x ys)
unfolding insert_sorted contains
insert_sorted-IsDistinct before x [] h d = (refl, tt)
insert_sorted-IsDistinct before x (y ∷ ys) h (e, d) = elim (Bool-cases (before x y)) [
  | inl f ↦ rw f (h, (e, d))
  | inr f ↦
      let apart : (x == y) ≡ false = ground (arith, h, eq_iff x y, eq_iff y x) in
      let rest : contains x ys ≡ false = ground (arith, h) in
      rw f (
        contains-insert_sorted before x ys y ∙ rw (apart, e) refl,
        insert_sorted-IsDistinct before x ys rest d,
      )
]

contains-sort :
    (before : String → String → Bool) (xs : List String) (k : String)
    → contains k (sort before xs) ≡ contains k xs
unfolding sort contains
contains-sort before [] k = refl
contains-sort before (x ∷ xs) k =
    contains-insert_sorted before x (sort before xs) k ∙ rw (contains-sort before xs k) refl

sort-IsDistinct :
    (before : String → String → Bool) (xs : List String)
    → IsDistinct xs
    → IsDistinct (sort before xs)
unfolding sort
sort-IsDistinct before [] d = tt
sort-IsDistinct before (x ∷ xs) (h, d) =
    insert_sorted-IsDistinct before x (sort before xs) (contains-sort before xs x ∙ h)
      (sort-IsDistinct before xs d)

map_id : (xs : List String) → map (λ x. x) xs ≡ xs
map_id [] = refl
map_id (x ∷ xs) = ap (λ ys. x ∷ ys) (map_id xs)

module _ (a : Arithmetic) where
  open a use {Number}

  map-slot :
      (evals : List (Evaluation Number)) (slots : List String)
      → map (λ d. d.slot) (map (slot_score_data a evals) slots) ≡ slots
  unfolding slot_score_data
  map-slot evals [] = refl
  map-slot evals (s ∷ slots) = ap (λ ys. s ∷ ys) (map-slot evals slots)

  contains-from :
      (evals : List (Evaluation Number)) (s : String)
      → contains s (map (λ e. e.from) evals) ≡ any (λ e. e.from == s) evals
  unfolding contains
  contains-from [] s = refl
  contains-from (e ∷ evals) s = rw (contains-from evals s) refl

  slots_of_lem :
      (before : String → String → Bool) (evals : List (Evaluation Number)) (s : String)
      → IsDistinct (slots_of a before evals)
        × (contains s (slots_of a before evals) ≡ any (λ e. e.from == s) evals)
  unfolding slots_of
  slots_of_lem before evals s =
      let froms = map (λ (e : Evaluation Number). e.from) evals in
      (
        sort-IsDistinct before (unique froms)
            (rw (map_id (unique froms)) at (unique_by-IsDistinct (λ x. x) froms)),
        contains-sort before (unique froms) s
            ∙ (rw (map_id (unique froms), map_id froms) at (contains-unique_by (λ x. x) froms s))
            ∙ contains-from evals s,
      )

  slots_of-IsSorted :
      (before : String → String → Bool) (evals : List (Evaluation Number))
      → ((x y : String) → before x y ≡ false → before y x ≡ true)
      → IsSorted before (slots_of a before evals)
  unfolding slots_of
  slots_of-IsSorted before evals total =
      sort-IsSorted before total (unique (map (λ (e : Evaluation Number). e.from) evals))

  -- The group's score chart has a bar for each slot of an evaluation and for no other, none twice,
  -- and in the order of the slots, for an order of texts that is total.
  pub build_group_score_data-slots :
      (before : String → String → Bool) (evals : List (Evaluation Number)) (s : String)
      → ((x y : String) → before x y ≡ false → before y x ≡ true)
      → IsDistinct (map (λ d. d.slot) (build_group_score_data a before evals))
        × (contains s (map (λ d. d.slot) (build_group_score_data a before evals))
            ≡ any (λ e. e.from == s) evals)
        × IsSorted before (map (λ d. d.slot) (build_group_score_data a before evals))
  unfolding build_group_score_data
  build_group_score_data-slots before evals s total =
      let (distinct, same) = slots_of_lem before evals s in
      rw (map-slot evals (slots_of a before evals))
        (distinct, same, slots_of-IsSorted before evals total)
