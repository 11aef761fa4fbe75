-- ===== src/Js/Map.antt =====
-- A `Map` with text keys, in insertion order: `set` on a key that is there keeps its place.
use tropek.Prelude.{
  String, ◌≡◌, refl, Bool, false, ◌||◌, Option, none, some, List, [], ◌∷◌, arith, ◌==◌, eq_iff,
  if◌then◌else◌, or_else,
}

abbrev pub Map {ℓ} : Type ℓ → Type ℓ
Map V = List (String × V)

unfoldable pub contains : String → List String → Bool
contains k [] = false
contains k (x ∷ xs) = x == k || contains k xs

-- No text stands twice in the list.
abbrev pub IsDistinct : List String → Type 0
IsDistinct [] = Unit
IsDistinct (x ∷ xs) = (contains x xs ≡ false) × IsDistinct xs

module _ {ℓ} {V : Type ℓ} where
  abbrev pub keys : Map V → List String
  keys [] = []
  keys ((k, v) ∷ m) = k ∷ keys m

  unfoldable pub get : Map V → String → Option V
  get [] k = none
  get ((j, v) ∷ m) k = if j == k then some v else get m k

  unfoldable pub set : Map V → String → V → Map V
  set [] k v = (k, v) ∷ []
  set ((j, w) ∷ m) k v = if j == k then (j, v) ∷ m else (j, w) ∷ set m k v

  -- `delete m[k]`
  unfoldable pub delete_key : Map V → String → Map V
  delete_key [] k = []
  delete_key ((j, w) ∷ m) k = let rest = delete_key m k in if j == k then rest else (j, w) ∷ rest

  -- `for (const [k, v] of entries) m.set(k, v)`
  unfoldable pub set_all : Map V → List (String × V) → Map V
  unfolding set
  set_all m [] = m
  set_all m ((k, v) ∷ es) = set_all (set m k v) es

  -- `new Map(entries)`
  unfoldable pub from_entries : List (String × V) → Map V
  unfolding set_all
  from_entries es = set_all [] es

  -- The last entry with the key.
  unfoldable pub find_last : String → List (String × V) → Option V
  find_last k [] = none
  find_last k ((j, v) ∷ es) = or_else (find_last k es) (if j == k then some v else none)

module _ {ℓ} {V : Type ℓ} where
  pub get-set :
      (m : Map V) (k j : String) (v : V) → get (set m k v) j ≡ (if k == j then some v else get m j)
  unfolding get set
  get-set [] k j v = refl
  get-set ((i, w) ∷ m) k j v = ground (arith, eq_iff k j, eq_iff i k, eq_iff i j, get-set m k j v)

  pub get-delete_key :
      (m : Map V) (k j : String) → get (delete_key m k) j ≡ (if k == j then none else get m j)
  unfolding get delete_key
  get-delete_key [] k j = ground arith
  get-delete_key ((i, w) ∷ m) k j =
      ground (arith, eq_iff k j, eq_iff i k, eq_iff i j, eq_iff k i, get-delete_key m k j)

  pub get-set_all :
      (m : Map V) (es : List (String × V)) (k : String)
      → get (set_all m es) k ≡ or_else (find_last k es) (get m k)
  unfolding set_all find_last
  get-set_all m [] k = refl
  get-set_all m ((j, v) ∷ es) k = rw (get-set_all (set m j v) es k, get-set m j k v) (ground arith)

  -- A map built from entries holds, for each key, the last entry with that key.
  pub get-from_entries :
      (es : List (String × V)) (k : String) → get (from_entries es) k ≡ find_last k es
  unfolding from_entries get
  get-from_entries es k = rw (get-set_all [] es k) (ground arith)

  pub contains-keys-set :
      (m : Map V) (k j : String) (v : V)
      → contains j (keys (set m k v)) ≡ (k == j || contains j (keys m))
  unfolding set contains
  contains-keys-set [] k j v = refl
  contains-keys-set ((i, w) ∷ m) k j v =
      ground (arith, eq_iff k j, eq_iff i k, eq_iff i j, contains-keys-set m k j v)

  pub keys-set-IsDistinct :
      (m : Map V) (k : String) (v : V) → IsDistinct (keys m) → IsDistinct (keys (set m k v))
  unfolding set contains
  keys-set-IsDistinct [] k v d = (refl, tt)
  keys-set-IsDistinct ((i, w) ∷ m) k v d =
      ground (arith, eq_iff i k, eq_iff k i, contains-keys-set m k i v, keys-set-IsDistinct m k v)

  pub contains-keys : (m : Map V) (k : String) → get m k ≡ none → contains k (keys m) ≡ false
  unfolding get contains
  contains-keys [] k h = refl
  contains-keys ((i, w) ∷ m) k h = ground (arith, contains-keys m k)
