-- ===== src/Registry/AssetTree/Members.antt =====
-- Which bindings `buildAssetTree` shows below a member of a group.
use tropek.Prelude.{
  String, ◌≡◌, refl, ap, inl, inr, true, false, not, ◌&&◌, ◌||◌, Option, none, List, [], ◌∷◌, ◌++◌,
  map, arith, ◌==◌, eq_iff, eq_refl, if◌then◌else◌, Bool-cases, or_else, filter, find,
}
use tropek.Js.Map.{contains, IsDistinct}
use tropek.Registry.Types.{MinBinding}
use tropek.Registry.Bindings.{binding_key}
use tropek.Registry.AssetTree.{merge_member}

abbrev key_list : List MinBinding → List String
key_list = map binding_key

pub contains-append :
    (xs ys : List String) (k : String) → contains k (xs ++ ys) ≡ (contains k xs || contains k ys)
unfolding contains
contains-append [] ys k = refl
contains-append (x ∷ xs) ys k = ground (arith, contains-append xs ys k)

map-append : (xs ys : List MinBinding) → key_list (xs ++ ys) ≡ key_list xs ++ key_list ys
map-append [] ys = refl
map-append (x ∷ xs) ys = ap (◌∷◌ (binding_key x)) (map-append xs ys)

abbrev fresh : List String → List MinBinding → List MinBinding
fresh seen bs = filter (λ b. not (contains (binding_key b) seen)) bs

contains-fresh :
    (seen : List String) (bs : List MinBinding) (k : String)
    → contains k (key_list (fresh seen bs)) ≡ (not (contains k seen) && contains k (key_list bs))
unfolding contains
contains-fresh seen [] k = ground arith
contains-fresh seen (b ∷ bs) k = ground (arith, eq_iff (binding_key b) k, contains-fresh seen bs k)

fresh-IsDistinct :
    (seen : List String) (bs : List MinBinding)
    → IsDistinct (key_list bs)
    → IsDistinct (key_list (fresh seen bs))
unfolding contains
fresh-IsDistinct seen [] d = tt
fresh-IsDistinct seen (b ∷ bs) d =
    ground (arith, contains-fresh seen bs (binding_key b), fresh-IsDistinct seen bs)

append-IsDistinct :
    (xs ys : List String)
    → IsDistinct xs
    → IsDistinct ys
    → ((k : String) → contains k xs ≡ true → contains k ys ≡ false)
    → IsDistinct (xs ++ ys)
unfolding contains
append-IsDistinct [] ys dx dy h = dy
append-IsDistinct (x ∷ xs) ys dx dy h = (
  rw (contains-append xs ys x, dx.0, h x (ground (arith, eq_refl x))),
  append-IsDistinct xs ys dx.1 dy (λ k e. h k (ground arith)),
)

find-append :
    (xs ys : List MinBinding) (k : String)
    → find (λ b. binding_key b == k) (xs ++ ys)
      ≡ or_else (find (λ b. binding_key b == k) xs) (find (λ b. binding_key b == k) ys)
find-append [] ys k = refl
find-append (x ∷ xs) ys k = ground (arith, find-append xs ys k)

find-fresh :
    (seen : List String) (bs : List MinBinding) (k : String)
    → find (λ b. binding_key b == k) (fresh seen bs)
      ≡ (if contains k seen then none else find (λ b. binding_key b == k) bs)
find-fresh seen [] k = ground arith
find-fresh seen (b ∷ bs) k = ground (arith, eq_iff (binding_key b) k, find-fresh seen bs k)

not-found :
    (bs : List MinBinding) (k : String)
    → contains k (key_list bs) ≡ false
    → find (λ b. binding_key b == k) bs ≡ none
unfolding contains
not-found [] k h = refl
not-found (b ∷ bs) k h = ground (arith, not-found bs k)

found :
    (bs : List MinBinding) (k : String) (o : Option MinBinding)
    → contains k (key_list bs) ≡ true
    → or_else (find (λ b. binding_key b == k) bs) none
      ≡ or_else (find (λ b. binding_key b == k) bs) o
unfolding contains
found [] k o h = cc
found (b ∷ bs) k o h = ground (arith, found bs k o)

-- Where neither an asset nor its group has two bindings with one key, the asset in the group has
-- under each key its own binding if it has one and else its group's, and no key twice.
pub merge_member_lem :
    (asset_bindings group_bindings : List MinBinding) (k : String)
    → IsDistinct (map binding_key asset_bindings)
    → IsDistinct (map binding_key group_bindings)
    → (find (λ b. binding_key b == k) (merge_member asset_bindings group_bindings)
        ≡ or_else
            (find (λ b. binding_key b == k) asset_bindings)
            (find (λ b. binding_key b == k) group_bindings))
      × IsDistinct (map binding_key (merge_member asset_bindings group_bindings))
unfolding merge_member
merge_member_lem own gs k da dg = (
  rw (find-append own (fresh (key_list own) gs) k, find-fresh (key_list own) gs k)
      (elim (Bool-cases (contains k (key_list own))) [
        | inl e ↦ rw e (found own k (find (λ b. binding_key b == k) gs) e)
        | inr e ↦ rw e
      ]),
  rw (map-append own (fresh (key_list own) gs)) (
      append-IsDistinct (key_list own) (key_list (fresh (key_list own) gs)) da
        (fresh-IsDistinct (key_list own) gs dg)
        (λ j e. rw (contains-fresh (key_list own) gs j, e))),
)
