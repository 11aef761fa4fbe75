-- ===== src/Js/MultiMap.antt =====
-- A `Map` from keys to lists, filled by `m.set(k, [...(m.get(k) ?? []), v])`.
use tropek.Prelude.{
  String, ◌≡◌, refl, ap, inl, inr, Option, none, some, List, [], ◌∷◌, ◌++◌, arith, ◌==◌, eq_iff,
  if◌then◌else◌, Bool-cases, or_default,
}
use tropek.Js.Map.{Map, get, set, get-set}
use mathlib.Core.List.{Perm, append-nil, append_assoc, perm_middle}
use mathlib.Core.List.Perm

module _ {ℓ} {V : Type ℓ} where
  unfoldable pub push_at : Map (List V) → String → V → Map (List V)
  unfolding get set
  push_at m k v = set m k (or_default (get m k) [] ++ v ∷ [])

  -- A list that is there holds at least one item.
  abbrev pub non_empty : List V → Option (List V)
  non_empty [] = none
  non_empty (x ∷ xs) = some (x ∷ xs)

  abbrev pub more : Option (List V) → List V → Option (List V)
  more none xs = non_empty xs
  more (some l) xs = some (l ++ xs)

  -- All items, key by key.
  abbrev pub values : Map (List V) → List V
  values [] = []
  values ((k, vs) ∷ m) = vs ++ values m

module _ {ℓ} {V : Type ℓ} where
  pub more_nil : (o : Option (List V)) → more o [] ≡ o
  more_nil none = refl
  more_nil (some l) = ap some (append-nil l)

  pub more-more :
      (o : Option (List V)) (x : V) (xs : List V) → more (more o (x ∷ [])) xs ≡ more o (x ∷ xs)
  more-more none x xs = refl
  more-more (some l) x xs = ap some (append_assoc l (x ∷ []) xs)

  more_one : (o : Option (List V)) (x : V) → some (or_default o [] ++ x ∷ []) ≡ more o (x ∷ [])
  more_one none x = refl
  more_one (some l) x = refl

module _ {ℓ} {V : Type ℓ} where
  pub get-push_at :
      (m : Map (List V)) (k j : String) (v : V)
      → get (push_at m k v) j ≡ more (get m j) (if k == j then v ∷ [] else [])
  unfolding push_at
  get-push_at m k j v =
      rw (get-set m k j _) (ground (arith, eq_iff k j, more_nil (get m j), more_one (get m j) v))

  values-set-perm :
      (m : Map (List V)) (k : String) (v : V)
      → Perm (values (set m k (or_default (get m k) [] ++ v ∷ []))) (v ∷ values m)
  unfolding get set
  values-set-perm [] k v = Perm.refl _
  values-set-perm ((j, vs) ∷ m) k v = elim (Bool-cases (j == k)) [
    | inl e ↦ rw e (rw (append_assoc vs (v ∷ []) (values m)) (perm_middle vs (values m)))
    | inr e ↦ rw e (
        Perm.trans (Perm.append (Perm.refl vs) (values-set-perm m k v)) (perm_middle vs (values m)))
  ]

  -- Filing an item adds it to the items and moves no other out.
  pub values-push_at-perm :
      (m : Map (List V)) (k : String) (v : V) → Perm (values (push_at m k v)) (v ∷ values m)
  unfolding push_at
  values-push_at-perm m k v = values-set-perm m k v
