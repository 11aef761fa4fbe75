-- ===== src/Navigator/GroupData/Cells.antt =====
-- Which evaluations meet in a cell of the group heatmap, and in a bar of the score chart.
use tropek.Prelude.{
  String, ◌≡◌, refl, sym, ap, ◌∙◌, inl, inr, Bool, true, ◌&&◌, List, [], ◌∷◌, map, arith, ◌==◌,
  eq_iff, eq_refl, if◌then◌else◌, Bool-cases, Bool_ext, filter, All,
}
use tropek.Js.Map.{Map, get, set}
use tropek.Js.Text.{◌+++◌}
use tropek.Js.Number.{Arithmetic}
use tropek.Navigator.GroupData.{Evaluation, Merged, cell_key, merge, merge_all, matching}
use Prim.Native.String
use text.Mathlib.Text.{starts_with}
use text.Mathlib.TextEquality.{starts_with_iff}
use text.Mathlib.TextLemmas
use tropek.Js.Text.Join.{IsNulFree, nul_cons, join_injective}

abbrev prefix : String → String → String
prefix asset slot = asset +++ "\0" +++ slot +++ "\0"

regroup :
    (asset slot u : String)
    → String.◌++◌ (prefix asset slot) u ≡ asset +++ "\0" +++ slot +++ "\0" +++ u
regroup asset slot u =
    rw (TextLemmas.append_assoc, TextLemmas.append_assoc, TextLemmas.append_assoc)

key_cons :
    (asset slot name : String)
    → asset +++ "\0" +++ slot +++ "\0" +++ name
      ≡ String.◌++◌ asset (String.◌∷◌ "\0" (String.◌++◌ slot (String.◌∷◌ "\0" name)))
key_cons asset slot name =
    rw (nul_cons name) (rw (nul_cons (String.◌++◌ slot (String.◌∷◌ "\0" name))))

split_key :
    (a s n a' s' n' : String)
    → IsNulFree a
    → IsNulFree a'
    → IsNulFree s
    → IsNulFree s'
    → a +++ "\0" +++ s +++ "\0" +++ n ≡ a' +++ "\0" +++ s' +++ "\0" +++ n'
    → (a ≡ a') × (s ≡ s') × (n ≡ n')
split_key a s n a' s' n' ha ha' hs hs' e =
    let (p, e') =
      join_injective "\0" a a' _ _ ha ha' (sym (key_cons a s n) ∙ e ∙ key_cons a' s' n') in
    let (q, r) = join_injective "\0" s s' n n' hs hs' e' in (p, q, r)

module _ (a : Arithmetic) where
  open a use {Number, of_ℕ, add}

  abbrev pub IsPlain : Evaluation Number → Type 0
  IsPlain e = IsNulFree e.asset_name × IsNulFree e.from

  abbrev pub is_at : String → String → Evaluation Number → Bool
  is_at asset slot e = e.asset_name == asset && e.from == slot

  starts_with-cell_key :
      (asset slot : String) (e : Evaluation Number)
      → IsNulFree asset
      → IsNulFree slot
      → IsPlain e
      → starts_with (cell_key a e) (prefix asset slot) ≡ is_at asset slot e
  unfolding cell_key
  starts_with-cell_key asset slot e ha hs (pa, ps) =
      Bool_ext _ _
        (λ k.
          let (u, same) = (starts_with_iff _ _).0 k in
          let (p, q, _) =
            split_key asset slot u e.asset_name e.from e.evaluation_name ha pa hs ps
              (sym (regroup asset slot u) ∙ same) in
          rw (p, q, eq_refl e.asset_name) (eq_refl e.from))
        (λ k.
          let p : e.asset_name ≡ asset = (eq_iff _ _).0 (ground arith) in
          let q : e.from ≡ slot = (eq_iff _ _).0 (ground arith) in
          (starts_with_iff _ _).1
            (e.evaluation_name, rw (p, q) (regroup asset slot e.evaluation_name)))

  abbrev entries : (String → Bool) → Map (Merged a) → Map (Merged a)
  entries p m = filter (λ e. p e.0) m

  get-entries :
      (p : String → Bool) (m : Map (Merged a)) (k : String)
      → p k ≡ true
      → get (entries p m) k ≡ get m k
  unfolding get
  get-entries p [] k h = refl
  get-entries p ((j, v) ∷ m) k h = elim (Bool-cases (j == k)) [
    | inl e ↦ let same : j ≡ k = (eq_iff j k).0 e in rw (same, h, eq_refl k)
    | inr e ↦ elim (Bool-cases (p j)) [
      | inl f ↦ rw (f, e) (get-entries p m k h)
      | inr f ↦ rw (f, e) (get-entries p m k h)
    ]
  ]

  entries-set :
      (p : String → Bool) (m : Map (Merged a)) (k : String) (v : Merged a)
      → entries p (set m k v) ≡ (if p k then set (entries p m) k v else entries p m)
  unfolding set
  entries-set p [] k v = refl
  entries-set p ((j, w) ∷ m) k v = elim (Bool-cases (j == k)) [
    | inl e ↦
        let same : j ≡ k = (eq_iff j k).0 e in
        rw (same, eq_refl k)
          (elim (Bool-cases (p k)) [ inl f ↦ rw f (rw (eq_refl k)) | inr f ↦ rw f ])
    | inr e ↦ rw e (elim (Bool-cases (p j)) [
      | inl f ↦
          rw (f, entries-set p m k v)
            (elim (Bool-cases (p k)) [ inl g ↦ rw g (rw e) | inr g ↦ rw g ])
      | inr f ↦ rw (f, entries-set p m k v)
    ])
  ]

  module _ (asset slot : String) (plain_asset : IsNulFree asset) (plain_slot : IsNulFree slot) where
    entries-merge_all :
        (m : Map (Merged a)) (es : List (Evaluation Number))
        → All IsPlain es
        → entries (λ k. starts_with k (prefix asset slot)) (merge_all a m es)
          ≡ merge_all a
              (entries (λ k. starts_with k (prefix asset slot)) m)
              (filter (is_at asset slot) es)
    unfolding merge_all
    entries-merge_all m [] h = refl
    entries-merge_all m (e ∷ es) (he, h) =
        let p = λ (k : String). starts_with k (prefix asset slot) in
        let k = cell_key a e in
        let test = starts_with-cell_key asset slot e plain_asset plain_slot he in
        rw
          (
            entries-merge_all (set m k (merge a (get m k) e)) es h,
            entries-set p m k (merge a (get m k) e),
          )
          (elim (Bool-cases (is_at asset slot e)) [
            | inl f ↦ rw (test ∙ f) (rw f (rw (← get-entries p m k (test ∙ f))))
            | inr f ↦ rw (test ∙ f) (rw f)
          ])

    -- Where no asset name and no slot holds a NUL, the cells of the grid at an asset and a slot are
    -- those that the evaluations of that asset in that slot give by themselves, one for each
    -- evaluation name: no evaluation of another asset or slot has a part in them.
    pub matching-merge_all :
        (evals : List (Evaluation Number))
        → All IsPlain evals
        → matching a (merge_all a [] evals) asset slot
          ≡ map (λ e. e.1) (merge_all a [] (filter (is_at asset slot) evals))
    unfolding matching
    matching-merge_all evals h = ap (map (λ e. e.1)) (entries-merge_all [] evals h)
