-- ===== src/Evaluations/Hooks/Override.antt =====
-- Which value a preference has after a number of renders.
use tropek.Prelude.{ℕ, ◌≡◌, refl, ap, ◌∙◌, ◌≢◌, true, false, none, List, [], ◌∷◌, arith, eqb, All}
use tropek.Evaluations.Hooks.{OverrideState, render, effective, set_override}

-- Renders, each with the generation of the master then.
abbrev pub render_all : {T : Type 0} → List ℕ → OverrideState T → OverrideState T
render_all [] s = s
render_all (generation ∷ gs) s = render_all gs (render generation s)

module _ {T : Type 0} where
  render-same :
      (g : ℕ) (gs : List ℕ) (s : OverrideState T)
      → s.last_generation ≡ g
      → All (λ h. h ≡ g) gs
      → render_all gs s ≡ s
  unfolding render
  render-same g [] s e h = refl
  render-same g (x ∷ gs) s e (same, h) =
      let hit : eqb x s.last_generation ≡ true = ground (arith, e, same) in
      rw hit (render-same g gs s e h)

  render-new :
      (g : ℕ) (s : OverrideState T)
      → s.last_generation ≢ g
      → render g s ≡ record { override = none; last_generation = g }
  unfolding render
  render-new g s ne =
      let miss : eqb g s.last_generation ≡ false = ground (arith, ne) in rw miss refl

  -- While the generation stays, a value that was set is the one in use, whatever the master's.
  pub render_all-pinned :
      (master value : T) (g : ℕ) (gs : List ℕ) (s : OverrideState T)
      → s.last_generation ≡ g
      → All (λ h. h ≡ g) gs
      → effective master (render_all gs (set_override value s)) ≡ value
  unfolding effective set_override
  render_all-pinned master value g gs s e h = rw (render-same g gs (set_override value s) e h) refl

  -- Once the generation differs from the one before, the master's value is in use, whatever was set,
  -- and it stays so while the generation does.
  render_all-master :
      (master value : T) (g : ℕ) (gs : List ℕ) (s : OverrideState T)
      → s.last_generation ≢ g
      → All (λ h. h ≡ g) gs
      → effective master (render_all (g ∷ gs) (set_override value s)) ≡ master
  unfolding effective set_override
  render_all-master master value g gs s ne h =
      ap (λ t. effective master (render_all gs t)) (render-new g (set_override value s) ne)
      ∙ ap (effective master)
          (render-same g gs (record { override = none; last_generation = g }) refl h)
