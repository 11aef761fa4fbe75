-- ===== src/Evaluations/Hooks/Tabs.antt =====
-- What the tabs of the indicators show.
use tropek.Prelude.{
  String, ◌≡◌, refl, ap, ◌∙◌, ◌≢◌, ◌⊎◌, inl, inr, true, false, Option, none, some, List, [], ◌∷◌,
  map, arith, ◌==◌, eq_iff, eq_refl, if◌then◌else◌, Bool-cases, or_default, length,
}
use tropek.Js.Map.{contains, get, find_last, get-from_entries}
use tropek.Evaluations.Domain.{Indicator}
use tropek.Evaluations.Hooks.{available_groups, in_group, counts, resolved_tab, tab_indicators}

find_last-table :
    {V : Type 0} (f : String → V) (ks : List String) (k : String)
    → find_last k (map (λ j. (j, f j)) ks) ≡ (if contains k ks then some (f k) else none)
unfolding find_last contains
find_last-table f [] k = refl
find_last-table f (j ∷ ks) k = elim (Bool-cases (j == k)) [
  | inl e ↦
      let same : j ≡ k = ground (arith, eq_iff j k) in
      rw (find_last-table f ks k, e, ap f same) (ground arith)
  | inr e ↦ rw (find_last-table f ks k, e) (ground arith)
]

contains_more :
    (j k : String) (ks : List String) → contains k ks ≡ true → contains k (j ∷ ks) ≡ true
unfolding contains
contains_more j k ks h = rw h (ground arith)

contains_head : (k : String) (ks : List String) → contains k (k ∷ ks) ≡ true
unfolding contains
contains_head k ks = rw (eq_refl k) refl

module _ {N : Type 0} where
  -- Whatever tab was chosen, the one in use is `all` or a group of an indicator.
  pub resolved_tab_lem :
      (indicators : Option (List (Indicator N))) (active_tab : String)
      → contains (resolved_tab indicators active_tab) ("all" ∷ available_groups indicators) ≡ true
  unfolding resolved_tab
  resolved_tab_lem indicators active_tab =
      go (Bool-cases (contains active_tab ("all" ∷ available_groups indicators)))
    where
      go :
          (contains active_tab ("all" ∷ available_groups indicators) ≡ true)
            ⊎ (contains active_tab ("all" ∷ available_groups indicators) ≡ false)
          → contains (resolved_tab indicators active_tab) ("all" ∷ available_groups indicators)
            ≡ true
      go (inl e) = rw e e
      go (inr e) = rw e (contains_head "all" (available_groups indicators))

  get-counts_table :
      (indicators : Option (List (Indicator N))) (g : String)
      → get (counts indicators) g ≡ (
          if contains g (available_groups indicators)
          then some (length (in_group (or_default indicators []) g))
          else none)
  unfolding counts
  get-counts_table indicators g =
      get-from_entries _ g
      ∙ find_last-table (λ k. length (in_group (or_default indicators []) k))
          (available_groups indicators) g

  resolved_tab-group :
      (indicators : Option (List (Indicator N))) (g : String)
      → contains g (available_groups indicators) ≡ true
      → resolved_tab indicators g ≡ g
  unfolding resolved_tab
  resolved_tab-group indicators g h =
      rw (contains_more "all" g (available_groups indicators) h) refl

  tab_indicators-group :
      (indicators : Option (List (Indicator N))) (g : String)
      → resolved_tab indicators g ≡ g
      → g ≢ "all"
      → tab_indicators indicators g ≡ in_group (or_default indicators []) g
  unfolding tab_indicators
  tab_indicators-group indicators g h ne =
      let other : (g == "all") ≡ false = ground (arith, eq_iff g "all", ne) in rw (h, other) refl

  -- The number on the tab of a group is the number of the indicators that the tab shows, where the
  -- group is not called `all`.
  get-counts :
      (indicators : Option (List (Indicator N))) (g : String)
      → contains g (available_groups indicators) ≡ true
      → g ≢ "all"
      → get (counts indicators) g ≡ some (length (tab_indicators indicators g))
  get-counts indicators g h ne =
      rw
        (
          get-counts_table indicators g,
          h,
          tab_indicators-group indicators g (resolved_tab-group indicators g h) ne,
        )
        refl
