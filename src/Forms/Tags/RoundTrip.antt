-- ===== src/Forms/Tags/RoundTrip.antt =====
-- Tags shown in a form and read from it again: features/registry/forms/tagUtils.ts.
use tropek.Prelude.{
  String, ◌≡◌, refl, sym, ap, ◌∙◌, false, ◌||◌, [], ◌∷◌, ◌++◌, arith, ◌==◌, eq_iff, All,
}
use tropek.Js.Map.{contains, IsDistinct, Map, keys, set}
use mathlib.Core.List.{append-nil, append_assoc}
use mathlib.Core.Path.{subst}
use tropek.Js.Trim.{trim}
use tropek.Forms.Tags.{tags_to_rows, add_row, add_rows, rows_to_tags}

set-fresh :
    (m : Map String) (k v : String) → contains k (keys m) ≡ false → set m k v ≡ m ++ (k, v) ∷ []
unfolding set contains
set-fresh [] k v h = refl
set-fresh ((i, w) ∷ m) k v h = ground (arith, h, eq_iff i k, eq_iff k i, set-fresh m k v)

contains-keys-append :
    (k : String) (m n : Map String)
    → contains k (keys (m ++ n)) ≡ (contains k (keys m) || contains k (keys n))
unfolding contains
contains-keys-append k [] n = refl
contains-keys-append k ((i, w) ∷ m) n = ground (arith, contains-keys-append k m n)

fresh_of-IsDistinct :
    (m n : Map String) (k v : String)
    → IsDistinct (keys (m ++ (k, v) ∷ n))
    → contains k (keys m) ≡ false
unfolding contains
fresh_of-IsDistinct [] n k v h = refl
fresh_of-IsDistinct ((i, w) ∷ m) n k v h =
    let apart = contains-keys-append i m ((k, v) ∷ n) in
    ground (arith, h.0, apart, eq_iff i k, eq_iff k i, fresh_of-IsDistinct m n k v h.1)

-- The key is not blank, and has no white space at its ends.
abbrev pub IsTrimmed : String → Type 0
IsTrimmed k = (trim k ≡ k) × ((k == "") ≡ false)

add_row-fresh :
    (acc : Map String) (k v : String)
    → trim k ≡ k
    → (k == "") ≡ false
    → contains k (keys acc) ≡ false
    → add_row acc (record { key = k; value = v }) ≡ acc ++ (k, v) ∷ []
unfolding add_row
add_row-fresh acc k v same full fresh = rw (same, full) (set-fresh acc k v fresh)

add_rows-tags_to_rows :
    (acc tags : Map String)
    → IsDistinct (keys (acc ++ tags))
    → All IsTrimmed (keys tags)
    → add_rows acc (tags_to_rows tags) ≡ acc ++ tags
unfolding add_rows tags_to_rows
add_rows-tags_to_rows acc [] d t = sym (append-nil acc)
add_rows-tags_to_rows acc ((k, v) ∷ tags) d ((same, full), t) =
    let added = add_row-fresh acc k v same full (fresh_of-IsDistinct acc tags k v d) in
    let apart = subst (λ m. IsDistinct (keys m)) (sym (append_assoc acc ((k, v) ∷ []) tags)) d in
    ap (λ m. add_rows m (tags_to_rows tags)) added
    ∙ add_rows-tags_to_rows (acc ++ (k, v) ∷ []) tags apart t
    ∙ append_assoc acc ((k, v) ∷ []) tags

-- Tags whose keys differ and are trimmed and not blank come back from their rows as they were.
pub rows_to_tags-tags_to_rows :
    (tags : Map String)
    → IsDistinct (keys tags)
    → All IsTrimmed (keys tags)
    → rows_to_tags (tags_to_rows tags) ≡ tags
unfolding rows_to_tags
rows_to_tags-tags_to_rows tags d t = add_rows-tags_to_rows [] tags d t
