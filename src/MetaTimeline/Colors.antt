-- ===== src/MetaTimeline/Colors.antt =====
-- The colour of a span: components/spanColor.ts of ui/src/features/meta_timeline.
use tropek.Prelude.{ℕ, ◌+◌, ◌-◌, ◌*◌, ◌%◌, ◌<◌, ◌≡◌, List, [], ◌∷◌, arith, ltb, if◌then◌else◌}
use tropek.MetaTimeline.{
  meta_span_palette_size, hash_step, hash_from, magnitude, get_span_color_index,
}

-- The hash over numbers that do not overflow.
abbrev pub hash_exactly : ℕ → List ℕ → ℕ
hash_exactly hash [] = hash
hash_exactly hash (unit ∷ units) = hash_exactly (hash * 33 + unit) units

hash_step-exact :
    (hash exact unit : ℕ)
    → hash ≡ exact % 4294967296
    → hash_step hash unit ≡ (exact * 33 + unit) % 4294967296
unfolding hash_step
hash_step-exact hash exact unit h = omega (arith, h)

hash_from-exact :
    (hash exact : ℕ) (units : List ℕ)
    → hash ≡ exact % 4294967296
    → hash_from hash units ≡ hash_exactly exact units % 4294967296
unfolding hash_from
hash_from-exact hash exact [] h = h
hash_from-exact hash exact (u ∷ units) h =
    hash_from-exact (hash_step hash u) (exact * 33 + u) units (hash_step-exact hash exact u h)

-- The colour of a text is one of the palette, and it is that of its hash over numbers that do not
-- overflow: the remainder by the size of the palette, or its complement where the sign bit of the
-- wrapped hash is set.
pub get_span_color_index_lem :
    (value : List ℕ)
    → (get_span_color_index value < meta_span_palette_size)
      × (get_span_color_index value ≡ (
          if ltb (hash_exactly 5381 value % 4294967296) 2147483648
          then hash_exactly 5381 value % 8
          else (8 - hash_exactly 5381 value % 8) % 8))
unfolding get_span_color_index magnitude
get_span_color_index_lem value =
    let same = hash_from-exact 5381 5381 value (omega arith) in
    (ground (arith, same), ground (arith, same))
