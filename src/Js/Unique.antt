-- ===== src/Js/Unique.antt =====
-- `[...new Set(xs)]`, and the filter with a `seen` set that keeps the first item of each key.
use tropek.Prelude.{
  ap, String, ◌≡◌, refl, inl, inr, true, false, not, ◌&&◌, List, [], ◌∷◌, map, arith, ◌==◌, eq_iff,
  eq_refl, Bool-cases, find, All, Any,
}
use tropek.Js.Map.{contains, IsDistinct}

module _ {ℓ} {A : Type ℓ} (key : A → String) where
  unfoldable pub unique_from : List String → List A → List A
  unique_from seen [] = []
  unique_from seen (x ∷ xs) = elim (contains (key x) seen) [
    | true ↦ unique_from seen xs
    | false ↦ x ∷ unique_from (key x ∷ seen) xs
  ]

  unfoldable pub unique_by : List A → List A
  unfolding unique_from
  unique_by xs = unique_from [] xs

  pub contains-unique_from :
      (seen : List String) (xs : List A) (k : String)
      → contains k (map key (unique_from seen xs))
        ≡ (not (contains k seen) && contains k (map key xs))
  unfolding unique_from contains
  contains-unique_from seen [] k = ground arith
  contains-unique_from seen (x ∷ xs) k = ground (
    arith,
    eq_iff (key x) k,
    contains-unique_from seen xs k,
    contains-unique_from (key x ∷ seen) xs k,
  )

  unique_from-IsDistinct :
      (seen : List String) (xs : List A) → IsDistinct (map key (unique_from seen xs))
  unfolding unique_from contains
  unique_from-IsDistinct seen [] = tt
  unique_from-IsDistinct seen (x ∷ xs) = ground (
    arith,
    eq_refl (key x),
    contains-unique_from (key x ∷ seen) xs (key x),
    unique_from-IsDistinct seen xs,
    unique_from-IsDistinct (key x ∷ seen) xs,
  )

  find-unique_from :
      (seen : List String) (xs : List A) (k : String)
      → contains k seen ≡ false
      → find (λ x. key x == k) (unique_from seen xs) ≡ find (λ x. key x == k) xs
  unfolding unique_from contains
  find-unique_from seen [] k h = refl
  find-unique_from seen (x ∷ xs) k h =
      ground
        (arith, eq_iff (key x) k, find-unique_from seen xs k, find-unique_from (key x ∷ seen) xs k)

  -- No key stands twice.
  pub unique_by-IsDistinct : (xs : List A) → IsDistinct (map key (unique_by xs))
  unfolding unique_by
  unique_by-IsDistinct xs = unique_from-IsDistinct [] xs

  -- A key is kept exactly when it was there.
  pub contains-unique_by :
      (xs : List A) (k : String) → contains k (map key (unique_by xs)) ≡ contains k (map key xs)
  unfolding unique_by contains
  contains-unique_by xs k = rw (contains-unique_from [] xs k)

  -- Of the items with one key the first is kept.
  pub find-unique_by :
      (xs : List A) (k : String) → find (λ x. key x == k) (unique_by xs) ≡ find (λ x. key x == k) xs
  unfolding unique_by contains
  find-unique_by xs k = find-unique_from [] xs k refl

-- `[...new Set(xs)]`
abbrev pub unique : List String → List String
unique xs = unique_by (λ x. x) xs

module _ {ℓ} {A : Type ℓ} (key : A → String) where
  pub All-unique_from {κ} :
      (P : A → Type κ) (seen : List String) (xs : List A)
      → All P xs
      → All P (unique_from key seen xs)
  unfolding unique_from
  All-unique_from P seen [] h = tt
  All-unique_from P seen (x ∷ xs) h =
      elim (contains (key x) seen)
        as (λ b. All P (elim b [
          | true ↦ unique_from key seen xs
          | false ↦ x ∷ unique_from key (key x ∷ seen) xs
        ])) [
          | true ↦ All-unique_from P seen xs h.1
          | false ↦ (h.0, All-unique_from P (key x ∷ seen) xs h.1)
        ]

  pub All-unique_by {κ} : (P : A → Type κ) (xs : List A) → All P xs → All P (unique_by key xs)
  unfolding unique_by
  All-unique_by P xs h = All-unique_from P [] xs h

  pub Any-of_contains :
      (xs : List A) (k : String)
      → contains k (map key xs) ≡ true
      → Any (λ x. (key x == k) ≡ true) xs
  unfolding contains
  Any-of_contains [] k h = cc
  Any-of_contains (x ∷ xs) k h = elim (Bool-cases (key x == k)) [
    | inl e ↦ inl e
    | inr e ↦ inr (Any-of_contains xs k (ground arith))
  ]

  pub contains_of-Any :
      (xs : List A) (k : String)
      → Any (λ x. (key x == k) ≡ true) xs
      → contains k (map key xs) ≡ true
  unfolding contains
  contains_of-Any [] k h = elim h [ ]
  contains_of-Any (x ∷ xs) k (inl e) = rw e
  contains_of-Any (x ∷ xs) k (inr h) = ground (arith, contains_of-Any xs k h)

map_id : (xs : List String) → map (λ x. x) xs ≡ xs
map_id [] = refl
map_id (x ∷ xs) = ap (x ∷◌) (map_id xs)

-- `new Set(xs)` has the texts of the list, each once.
pub unique-IsDistinct : (xs : List String) → IsDistinct (unique xs)
unique-IsDistinct xs = rw (map_id (unique xs)) at (unique_by-IsDistinct (λ x. x) xs)

pub contains-unique : (xs : List String) (k : String) → contains k (unique xs) ≡ contains k xs
contains-unique xs k = rw (map_id (unique xs), map_id xs) at (contains-unique_by (λ x. x) xs k)
