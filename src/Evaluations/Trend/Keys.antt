-- ===== src/Evaluations/Trend/Keys.antt =====
-- The keys and the order of the targets that `discoverTargets` lists.
use tropek.Prelude.{
  String, ◌≡◌, refl, sym, ◌∙◌, inl, inr, Bool, true, false, ◌&&◌, ◌||◌, Option, none, some, List,
  [], ◌∷◌, map, arith, ◌==◌, eq_iff, if◌then◌else◌, Bool-cases, All,
}
use tropek.Js.Map.{IsDistinct, Map, keys, get, set, keys-set-IsDistinct}
use tropek.Evaluations.Domain.{PassTarget, TrendTargets, TrendPoint}
use tropek.Evaluations.Trend.{
  Level, is_level, target_key, TargetInfo, DiscoveredTarget, discovered_target, info_of,
  note_entries, note_targets, note_points, discover_targets, target_before, is_relative,
}
use mathlib.Core.Path.{subst}
use tropek.Js.Sort.{sort, insert_sorted, IsSorted, sort-IsSorted}

abbrev pub IsNoted : String × TargetInfo → Type 0
IsNoted (key, info) = key ≡ target_key info.level info.criteria

IsNoted-set :
    (m : Map TargetInfo) (k : String) (i : TargetInfo)
    → All IsNoted m
    → IsNoted (k, i)
    → All IsNoted (set m k i)
unfolding set
IsNoted-set [] k i h p = (p, tt)
IsNoted-set ((j, v) ∷ m) k i (q, h) p = elim (Bool-cases (j == k)) [
  | inl e ↦ let same : j ≡ k = ground (arith, eq_iff j k) in rw e (same ∙ p, h)
  | inr e ↦ rw e (q, IsNoted-set m k i h p)
]

IsNoted-get :
    (m : Map TargetInfo) (k : String) (i : TargetInfo)
    → All IsNoted m
    → get m k ≡ some i
    → IsNoted (k, i)
unfolding get
IsNoted-get [] k i h e = cc
IsNoted-get ((j, v) ∷ m) k i (q, h) e = elim (Bool-cases (j == k)) [
  | inl f ↦
      let same : j ≡ k = ground (arith, eq_iff j k) in
      let value : v ≡ i = ground (arith, e, f) in
      subst (λ x. k ≡ target_key x.level x.criteria) value (sym same ∙ q)
  | inr f ↦ IsNoted-get m k i h (ground (arith, e, f))
]

module _ {N : Type 0} (is_zero : N → Bool) where
  IsNoted-info_of :
      (l : Level) (e : PassTarget N) (o : Option TargetInfo)
      → ((i : TargetInfo) → o ≡ some i → IsNoted (target_key l e.criteria, i))
      → IsNoted (target_key l e.criteria, info_of is_zero l e o)
  unfolding info_of
  IsNoted-info_of l e none h = refl
  IsNoted-info_of l e (some i) h = elim (Bool-cases (is_zero e.target_value)) [
    | inl z ↦ rw z (h i refl)
    | inr z ↦ rw z (h i refl)
  ]

  IsNoted-note_entries :
      (l : Level) (es : List (PassTarget N)) (m : Map TargetInfo)
      → All IsNoted m
      → IsDistinct (keys m)
      → All IsNoted (note_entries is_zero l m es) × IsDistinct (keys (note_entries is_zero l m es))
  unfolding note_entries
  IsNoted-note_entries l [] m h d = (h, d)
  IsNoted-note_entries l (e ∷ es) m h d =
      let k = target_key l e.criteria in
      IsNoted-note_entries l es _
        (IsNoted-set m k _ h (IsNoted-info_of l e (get m k) (λ i same. IsNoted-get m k i h same)))
        (keys-set-IsDistinct m k _ d)

  IsNoted-note_targets :
      (o : Option (TrendTargets N)) (m : Map TargetInfo)
      → All IsNoted m
      → IsDistinct (keys m)
      → All IsNoted (note_targets is_zero m o) × IsDistinct (keys (note_targets is_zero m o))
  unfolding note_targets
  IsNoted-note_targets none m h d = (h, d)
  IsNoted-note_targets (some t) m h d =
      let (h', d') = IsNoted-note_entries Level.pass t.pass m h d in
      IsNoted-note_entries Level.warn t.warn _ h' d'

  IsNoted-note_points :
      {D : Type 0} (ps : List (TrendPoint N D)) (m : Map TargetInfo)
      → All IsNoted m
      → IsDistinct (keys m)
      → All IsNoted (note_points is_zero m ps) × IsDistinct (keys (note_points is_zero m ps))
  unfolding note_points
  IsNoted-note_points [] m h d = (h, d)
  IsNoted-note_points (p ∷ ps) m h d =
      let (h', d') = IsNoted-note_targets p.targets m h d in IsNoted-note_points ps _ h' d'

-- The key of a target that `discoverTargets` found.
abbrev pub IsKeyed : DiscoveredTarget → Type 0
IsKeyed d = d.key ≡ target_key d.level d.criteria

IsKeyed-discovered : (m : Map TargetInfo) → All IsNoted m → All IsKeyed (map discovered_target m)
unfolding discovered_target
IsKeyed-discovered [] h = tt
IsKeyed-discovered ((k, i) ∷ m) (p, h) = (p, IsKeyed-discovered m h)

All-insert_sorted :
    {A : Type 0} (P : A → Type 0) (before : A → A → Bool) (x : A) (ys : List A)
    → P x
    → All P ys
    → All P (insert_sorted before x ys)
unfolding insert_sorted
All-insert_sorted P before x [] p h = (p, tt)
All-insert_sorted P before x (y ∷ ys) p (q, h) = elim (Bool-cases (before x y)) [
  | inl e ↦ rw e (p, (q, h))
  | inr e ↦ rw e (q, All-insert_sorted P before x ys p h)
]

All-sort :
    {A : Type 0} (P : A → Type 0) (before : A → A → Bool) (xs : List A)
    → All P xs
    → All P (sort before xs)
unfolding sort
All-sort P before [] h = tt
All-sort P before (x ∷ xs) (p, h) =
    All-insert_sorted P before x (sort before xs) p (All-sort P before xs h)

order-total :
    (l m : Level) (r s a b : Bool)
    → (a ≡ false → b ≡ true)
    → (if is_level l m then (if r then s && a else s || a) else is_level l Level.pass) ≡ false
    → (if is_level m l then (if s then r && b else r || b) else is_level m Level.pass) ≡ true
unfolding is_level
order-total Level.pass Level.pass r s a b f h = ground (arith, f, h)
order-total Level.pass Level.warn r s a b f h = cc
order-total Level.warn Level.pass r s a b f h = refl
order-total Level.warn Level.warn r s a b f h = ground (arith, f, h)

target_before-total :
    (locale_le : String → String → Bool)
    → ((s t : String) → locale_le s t ≡ false → locale_le t s ≡ true)
    → (x y : DiscoveredTarget) → target_before locale_le x y ≡ false
    → target_before locale_le y x ≡ true
unfolding target_before
target_before-total locale_le total x y h =
    order-total x.level y.level (is_relative x.criteria) (is_relative y.criteria) _ _
      (total x.criteria y.criteria) h

-- Every target that `discoverTargets` lists stands under the key of its level and its criteria, and
-- the list is in order, for a comparison of texts that is total.
discover_targets-IsSorted :
    {N D : Type 0} (is_zero : N → Bool) (locale_le : String → String → Bool)
    (trend : List (TrendPoint N D))
    → ((s t : String) → locale_le s t ≡ false → locale_le t s ≡ true)
    → All IsKeyed (discover_targets is_zero locale_le trend)
      × IsSorted (target_before locale_le) (discover_targets is_zero locale_le trend)
unfolding discover_targets
discover_targets-IsSorted is_zero locale_le trend total =
    let (noted, distinct) = IsNoted-note_points is_zero trend [] tt tt in
    (
      All-sort IsKeyed (target_before locale_le) _ (IsKeyed-discovered _ noted),
      sort-IsSorted (target_before locale_le) (target_before-total locale_le total) _,
    )
