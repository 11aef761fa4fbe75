-- ===== src/Js/SearchParams.antt =====
-- `URLSearchParams`: a list of names with values, in order, where a name may stand twice.
use tropek.Prelude.{
  String, ◌≡◌, refl, none, some, List, [], ◌∷◌, arith, ◌==◌, eq_iff, if◌then◌else◌,
}
use tropek.Js.Map.{get}

-- `search.delete(name)`: every entry of the name goes.
unfoldable pub remove : List (String × String) → String → List (String × String)
remove [] k = []
remove ((j, w) ∷ m) k = let rest = remove m k in if j == k then rest else (j, w) ∷ rest

-- `search.set(name, value)`: the first entry of the name is changed and the others go; a name that
-- is not there comes at the end.
unfoldable pub set_param : List (String × String) → String → String → List (String × String)
unfolding remove
set_param [] k v = (k, v) ∷ []
set_param ((j, w) ∷ m) k v =
    let rest = set_param m k v in if j == k then (k, v) ∷ remove m k else (j, w) ∷ rest

pub get-remove :
    (m : List (String × String)) (k j : String)
    → get (remove m k) j ≡ (if k == j then none else get m j)
unfolding get remove
get-remove [] k j = ground arith
get-remove ((i, w) ∷ m) k j =
    ground (arith, eq_iff k j, eq_iff i k, eq_iff i j, eq_iff k i, get-remove m k j)

pub get-set_param :
    (m : List (String × String)) (k j v : String)
    → get (set_param m k v) j ≡ (if k == j then some v else get m j)
unfolding get set_param
get-set_param [] k j v = refl
get-set_param ((i, w) ∷ m) k j v =
    ground (
      arith,
      eq_iff k j,
      eq_iff i k,
      eq_iff i j,
      eq_iff k i,
      get-set_param m k j v,
      get-remove m k j,
    )
