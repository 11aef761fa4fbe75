-- ===== src/Evaluations/Trend/Toggles.antt =====
-- What the toggles of a trend show.
use tropek.Prelude.{
  String, ◌≡◌, refl, sym, ap, ◌∙◌, ◌≢◌, inl, inr, Bool, true, false, not, Option, none, some, List,
  [], ◌∷◌, map, arith, ◌==◌, eq_iff, eq_refl, if◌then◌else◌, Bool-cases, is_some, All, Any,
}
use tropek.Js.Map.{Map, set, get-set}
use tropek.Evaluations.Trend.{
  Level, target_key, level_text, DiscoveredTarget, ChartTarget, is_visible, criteria_toggles,
  baseline_toggle, toggles, toggle,
}
use mathlib.Core.Path.{subst}
use tropek.Evaluations.Trend.Keys.{IsKeyed}
use tropek.Js.Text.Join.{cons_injective}
use text.Mathlib.TextLemmas.{cons-append}
use Prim.Native.Char.{code}

-- Whether a target is on before it was ever switched: every one but the baseline.
abbrev pub default_on : String → Bool
default_on key = not (key == "baseline")

target_key-ne : (l : Level) (c : String) → target_key l c ≢ "baseline"
unfolding target_key level_text
target_key-ne Level.pass c e =
    let (differ, rest) = cons_injective "p" "b" _ "aseline" (sym (cons-append "p" "ass" _) ∙ e) in
    ground (arith, ap code differ)
target_key-ne Level.warn c e =
    let (differ, rest) = cons_injective "w" "b" _ "aseline" (sym (cons-append "w" "arn" _) ∙ e) in
    ground (arith, ap code differ)

IsKeyed-default : (d : DiscoveredTarget) → IsKeyed d → default_on d.key ≡ true
IsKeyed-default d h =
    let ne : d.key ≢ "baseline" = λ e. target_key-ne d.level d.criteria (sym h ∙ e) in
    ground (arith, ne, eq_iff d.key "baseline")

-- Exactly the baseline has no level.
abbrev HasDefault : ChartTarget → Type 0
HasDefault t = is_some t.level ≡ default_on t.key

toggles-default :
    (v : Map Bool) (ds : List DiscoveredTarget) (b : Bool)
    → All IsKeyed ds
    → All HasDefault (toggles v ds b)
unfolding toggles criteria_toggles baseline_toggle
toggles-default v [] true h = (refl, tt)
toggles-default v [] false h = tt
toggles-default v (d ∷ ds) b (k, h) = elim (Bool-cases d.always_zero) [
  | inl e ↦ rw e (toggles-default v ds b h)
  | inr e ↦ rw e (sym (IsKeyed-default d k), toggles-default v ds b h)
]

All-Any : {A : Type 0} (P : A → Type 0) (xs : List A) (x : A) → All P xs → Any (λ y. y ≡ x) xs → P x
All-Any P [] x h m = elim m [ ]
All-Any P (y ∷ ys) x (p, h) (inl e) = subst P e p
All-Any P (y ∷ ys) x (p, h) (inr m) = All-Any P ys x h m

-- What the switch of one key makes visible.
switched :
    (v : Map Bool) (k j : String)
    → is_visible (set v k (not (is_visible v k (default_on k)))) j (default_on j)
      ≡ (if j == k then not (is_visible v j (default_on j)) else is_visible v j (default_on j))
switched v k j = elim (Bool-cases (k == j)) [
  | inl e ↦
      let same : k ≡ j = ground (arith, eq_iff k j) in
      rw (get-set v k j (not (is_visible v k (default_on k))), same, eq_refl j) refl
  | inr e ↦
      let other : (j == k) ≡ false = ground (arith, e, eq_iff k j, eq_iff j k) in
      rw (get-set v k j (not (is_visible v k (default_on k))), e, other) refl
]

abbrev pub flip : String → ChartTarget → ChartTarget
flip k u = if u.key == k then record u { visible = not u.visible } else u

flip_lem :
    (k key : String) (level : Option Level) (criteria : String) (x : Bool)
    → (record {
      key = key;
      level = level;
      criteria = criteria;
      visible = if key == k then not x else x;
    })
      ≡ flip k (record { key = key; level = level; criteria = criteria; visible = x })
flip_lem k key level criteria x = elim (Bool-cases (key == k)) [
  | inl e ↦ rw e refl
  | inr e ↦ rw e refl
]

toggle_row :
    (v : Map Bool) (k key : String) (level : Option Level) (criteria : String) (default : Bool)
    → default ≡ default_on key
    → (record {
      key = key;
      level = level;
      criteria = criteria;
      visible = is_visible (set v k (not (is_visible v k (default_on k)))) key default;
    })
      ≡ flip k (record {
        key = key;
        level = level;
        criteria = criteria;
        visible = is_visible v key default;
      })
toggle_row v k key level criteria default e = rw e (
    ap (λ x. record { key = key; level = level; criteria = criteria; visible = x })
      (switched v k key)
    ∙ flip_lem k key level criteria (is_visible v key (default_on key)))

cons_cong : {A : Type 0} {x y : A} {xs ys : List A} → x ≡ y → xs ≡ ys → (x ∷ xs) ≡ (y ∷ ys)
cons_cong e f = rw (e, f) refl

toggles-set :
    (v : Map Bool) (ds : List DiscoveredTarget) (b : Bool) (k : String)
    → All IsKeyed ds
    → toggles (set v k (not (is_visible v k (default_on k)))) ds b ≡ map (flip k) (toggles v ds b)
unfolding toggles criteria_toggles baseline_toggle
toggles-set v [] false k h = refl
toggles-set v [] true k h = cons_cong (toggle_row v k "baseline" none "baseline" false refl) refl
toggles-set v (d ∷ ds) b k (key, h) = elim (Bool-cases d.always_zero) [
  | inl e ↦ rw e (toggles-set v ds b k h)
  | inr e ↦ rw e (
      cons_cong (toggle_row v k d.key (some d.level) d.criteria true (sym (IsKeyed-default d key)))
        (toggles-set v ds b k h))
]

-- Where every target stands under the key of its level and its criteria, the toggle of a listed
-- target switches that target and no other, and every target keeps its place.
pub toggles-toggle :
    (v : Map Bool) (ds : List DiscoveredTarget) (b : Bool) (t : ChartTarget)
    → All IsKeyed ds
    → Any (λ u. u ≡ t) (toggles v ds b)
    → toggles (toggle t v) ds b ≡ map (flip t.key) (toggles v ds b)
unfolding toggle
toggles-toggle v ds b t h m =
    rw (All-Any HasDefault (toggles v ds b) t (toggles-default v ds b h) m)
      (toggles-set v ds b t.key h)
