-- ===== src/Charts/Labels/Text.antt =====
-- lib/chartAnnotations.ts: the text of a label and of its tooltip. A text is the list of its UTF-16
-- units, as `length` and `slice` of JavaScript take it. How wide a text is drawn is the canvas's
-- answer: a parameter, already rounded up as `estimateLabelWidth` rounds it.
pub mod Clip
pub mod Escape
use tropek.Prelude.{
  ℕ, zero, suc, ◌+◌, ◌-◌, ◌*◌, ◌/◌, ◌%◌, ◌≤◌, ◌<◌, String, ◌≡◌, refl, sym, ap, ◌∙◌, ◌≢◌, ◌↔◌, ◌⊎◌,
  inl, inr, Bool, true, false, not, ◌&&◌, ◌||◌, Option, none, some, List, [], ◌∷◌, ◌++◌, map,
  reverse, arith, ◌==◌, eq_iff, eq_refl, ltb, leb, eqb, if◌then◌else◌, Bool-cases, Bool_ext,
  Option-cases, or_default, or_else, and_then, map?, is_some, length, get_elem?, filter, find, any,
  All, Any, length-append, length-map, length-reverse, get_elem?-append_left,
  get_elem?-append_length, get_elem?-reverse, get_elem?-map, All-append, ltb→lt, lt→ltb, leb→le,
  eqb→eq, eqb_refl, tests, min, max,
}
use tropek.Js.Map.{
  contains, IsDistinct, Map, keys, get, set, set_all, from_entries, find_last, get-set,
  get-from_entries, contains-keys-set, keys-set-IsDistinct, contains-keys,
}
use tropek.Js.Unique.{
  unique_from, unique_by, unique, unique_by-IsDistinct, contains-unique_by, find-unique_by,
  All-unique_by, Any-of_contains, contains_of-Any,
}
use tropek.Js.Text.{◌+++◌, decimal, is_white_space}
use tropek.Js.MultiMap.{
  push_at, non_empty, more, more_nil, more-more, get-push_at, values, values-push_at-perm,
}

-- The prefix of a text, `text.slice(0, n)`.
abbrev pub take {ℓ} : {A : Type ℓ} → ℕ → List A → List A
take zero xs = []
take (suc n) [] = []
take (suc n) (x ∷ xs) = x ∷ take n xs

-- One more unit in front of a text that is trimmed already.
unfoldable pub trim_cons : ℕ → List ℕ → List ℕ
unfolding is_white_space
trim_cons c [] = if is_white_space c then [] else c ∷ []
trim_cons c (d ∷ ds) = c ∷ d ∷ ds

unfoldable pub trim_end : List ℕ → List ℕ
unfolding trim_cons
trim_end [] = []
trim_end (c ∷ cs) = trim_cons c (trim_end cs)

abbrev pub max_label_width_px : ℕ
max_label_width_px = 160

-- The padding and the border on both sides: `2 * LABEL_PAD_X_PX + 2 * LABEL_BORDER_PX`.
abbrev pub chrome_px : ℕ
chrome_px = 2 * 4 + 2 * 1

-- The unit of `…`.
abbrev pub ellipsis : ℕ
ellipsis = 8230

-- `${text.slice(0, n).trimEnd()}…`
unfoldable pub clipped : List ℕ → ℕ → List ℕ
unfolding trim_end
clipped text n = trim_end (take n text) ++ ellipsis ∷ []

-- The binary search, for a test of its candidates; `none` where the fuel does not do.
unfoldable pub longest_prefix : (ℕ → Bool) → ℕ → ℕ → ℕ → Option ℕ
longest_prefix fits zero low high = if ltb low high then none else some low
longest_prefix fits (suc fuel) low high =
    let mid = (low + high + 1) / 2 in
    let upper = longest_prefix fits fuel mid high in
    let lower = longest_prefix fits fuel low (mid - 1) in
    if ltb low high then (if fits mid then upper else lower) else some low

module _ (text_px : List ℕ → ℕ) where
  unfoldable pub estimate_label_width : List ℕ → ℕ
  estimate_label_width text = text_px text + chrome_px

  -- `measureTextPx(candidate) <= maxTextPx`
  unfoldable pub candidate_fits : List ℕ → ℕ → Bool
  unfolding clipped
  candidate_fits text mid = leb (text_px (clipped text mid)) (max_label_width_px - chrome_px)

  -- A text of `n` units needs at most `n` steps of the search.
  unfoldable pub clip_label_text : List ℕ → Option (List ℕ)
  unfolding estimate_label_width candidate_fits longest_prefix clipped
  clip_label_text text =
      if leb (estimate_label_width text) max_label_width_px
      then some text
      else map? (clipped text) (longest_prefix (candidate_fits text) (length text) 1 (length text))

-- What `escapeHtml` puts for one unit.
unfoldable pub escape_unit : ℕ → List ℕ
escape_unit c =
    if eqb c 38
    then 38 ∷ 97 ∷ 109 ∷ 112 ∷ 59 ∷ []
    else (if eqb c 60
        then 38 ∷ 108 ∷ 116 ∷ 59 ∷ []
        else (if eqb c 62
            then 38 ∷ 103 ∷ 116 ∷ 59 ∷ []
            else (if eqb c 34
                then 38 ∷ 113 ∷ 117 ∷ 111 ∷ 116 ∷ 59 ∷ []
                else (if eqb c 39 then 38 ∷ 35 ∷ 51 ∷ 57 ∷ 59 ∷ [] else c ∷ []))))

unfoldable pub escape_html : List ℕ → List ℕ
unfolding escape_unit
escape_html [] = []
escape_html (c ∷ cs) = escape_unit c ++ escape_html cs
