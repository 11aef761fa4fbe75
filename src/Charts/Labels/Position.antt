-- ===== src/Charts/Labels/Position.antt =====
-- Where `clampLabelX` and `pixelXForIndex` put a label.
use tropek.Prelude.{ℕ, ◌+◌, ◌-◌, ◌*◌, ◌≤◌, ◌<◌, ◌≡◌, ap, arith, max}
use native.Mathlib.Nat.{mul-le-mul_left, mul-le-mul_right, mul-add}
use tropek.Charts.Labels.{
  px, half, gaps, label_edge_inset_px, grid_left_px, grid_right_px, clamp_label_x,
  pixel_x_for_index,
}

-- A label that is no wider than the chart without its insets lies within the chart, the inset away
-- from both edges.
clamp_label_x-inside :
    (unit pixel_x label_width chart_width : ℕ)
    → label_width + 2 * label_edge_inset_px ≤ chart_width
    → (half unit label_width + px unit label_edge_inset_px
        ≤ clamp_label_x unit pixel_x label_width chart_width)
      × (clamp_label_x unit pixel_x label_width chart_width
            + half unit label_width
            + px unit label_edge_inset_px
          ≤ px unit chart_width)
unfolding clamp_label_x
clamp_label_x-inside unit pixel_x label_width chart_width h =
    let e = mul-add unit label_width 4 in
    let le = mul-le-mul_left unit h in (ground (arith, e, le), ground (arith, e, le))

last_gap :
    (i g width : ℕ)
    → i ≤ g
    → grid_left_px + grid_right_px < width
    → g * grid_left_px + i * max (width - grid_left_px - grid_right_px) 1 + g * grid_right_px
      ≤ g * width
last_gap i g width le h =
    let d = width - grid_left_px - grid_right_px in
    let split : width ≡ d + 72 = omega arith in
    let e = mul-add g d 72 in
    let f = mul-le-mul_right d le in ground (arith, split, e, f, ap (λ w. g * w) split)

-- On a chart wider than its margins every point stands between the left and the right edge of the
-- grid.
pub pixel_x_for_index-bounds :
    (i num_points chart_width : ℕ)
    → grid_left_px + grid_right_px < chart_width
    → i < num_points
    → (px (gaps num_points) grid_left_px ≤ pixel_x_for_index i num_points chart_width)
      × (pixel_x_for_index i num_points chart_width + px (gaps num_points) grid_right_px
          ≤ px (gaps num_points) chart_width)
unfolding pixel_x_for_index
pixel_x_for_index-bounds i num_points chart_width h lt =
    let le : i ≤ gaps num_points = ground arith in
    let last = last_gap i (gaps num_points) chart_width le h in
    (ground (arith, last), ground (arith, last))
