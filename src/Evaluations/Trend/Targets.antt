-- ===== src/Evaluations/Trend/Targets.antt =====
-- What `discoverTargets` finds.
use tropek.Prelude.{
  String, ◌≡◌, refl, sym, ap, ◌∙◌, ◌≢◌, Bool, not, ◌&&◌, ◌||◌, Option, none, some, List, [], ◌∷◌,
  ◌++◌, map, arith, ◌==◌, if◌then◌else◌,
}
use tropek.Js.Map.{Map}
use tropek.Js.Text.{◌+++◌}
use tropek.Evaluations.Domain.{PassTarget, TrendTargets, TrendPoint}
use tropek.Evaluations.Trend.{Level, is_level, target_key, level_text, TargetInfo}
use tropek.Js.Text.Join.{append_cancel, cons_injective}
use text.Mathlib.TextLemmas.{cons-append}
use Prim.Native.Char.{code}

pass_ne_warn : (c d : String) → target_key Level.pass c ≢ target_key Level.warn d
unfolding target_key level_text
pass_ne_warn c d e =
    let (differ, rest) =
      cons_injective "p" "w" _ _ (sym (cons-append "p" "ass" _) ∙ e ∙ cons-append "w" "arn" _) in
    ground (arith, ap code differ)

-- A key of `discoverTargets` names one level and one criteria.
pub target_key_injective :
    (l m : Level) (c d : String) → target_key l c ≡ target_key m d → (l ≡ m) × (c ≡ d)
unfolding target_key level_text
target_key_injective Level.pass Level.pass c d e =
    (refl, append_cancel ":" c d (append_cancel "pass" (":" +++ c) (":" +++ d) e))
target_key_injective Level.warn Level.warn c d e =
    (refl, append_cancel ":" c d (append_cancel "warn" (":" +++ c) (":" +++ d) e))
target_key_injective Level.pass Level.warn c d e = elim (pass_ne_warn c d e) [ ]
target_key_injective Level.warn Level.pass c d e = elim (pass_ne_warn d c (sym e)) [ ]

-- What entries with a level and a criteria make of a value, by whether there are any and whether one
-- of them is not zero.
after : Level → String → Bool → Bool → Option TargetInfo → Option TargetInfo
after l c seen non_zero none =
    if seen then some (record { level = l; criteria = c; has_non_zero = non_zero }) else none
after l c seen non_zero (some i) = some (record i { has_non_zero = i.has_non_zero || non_zero })

module _ {N : Type 0} (is_zero : N → Bool) where
  abbrev pub is_entry : Level → String → Level × PassTarget N → Bool
  is_entry l c (m, e) = is_level m l && (e.criteria == c)

  abbrev pub is_non_zero : Level → String → Level × PassTarget N → Bool
  is_non_zero l c (m, e) = (is_level m l && (e.criteria == c)) && not (is_zero e.target_value)

  abbrev pub tagged : Level → List (PassTarget N) → List (Level × PassTarget N)
  tagged m es = map (λ e. (m, e)) es

  -- The entries of a point, and of the points in turn.
  unfoldable pub targets_entries : Option (TrendTargets N) → List (Level × PassTarget N)
  targets_entries none = []
  targets_entries (some t) = tagged Level.pass t.pass ++ tagged Level.warn t.warn

module _ {N D : Type 0} (is_zero : N → Bool) where
  unfoldable pub trend_entries : List (TrendPoint N D) → List (Level × PassTarget N)
  unfolding targets_entries
  trend_entries [] = []
  trend_entries (p ∷ ps) = targets_entries is_zero p.targets ++ trend_entries ps
