-- ===== src/TimeRange/Sessions.antt =====
-- The provider from its first render on: ui/src/lib/time-range-context.tsx with
-- ui/src/lib/search-params.ts.
use tropek.Prelude.{
  String, ◌≡◌, refl, sym, ap, ◌∙◌, inl, inr, Bool, true, ◌&&◌, Option, none, some, List, arith,
  ◌==◌, eq_iff, eq_refl, Bool-cases, Option-cases,
}
use tropek.Js.Map.{get}
use tropek.TimeRange.{
  StoredRange, Browser, parse_time_params, range_to_params, parse_to, parse_absolute,
}
use tropek.TimeRange.Provider.{
  Provider, same_text, has_text, save_range, resolve, context_from, with_range, mount, render,
  write_range, effect, commit, set_range,
}
use mathlib.Core.Option.{some_inj}
use mathlib.Core.Path.{subst}
use tropek.TimeRange.Params.{shown_to}

and_true : (p q : Bool) → (p && q) ≡ true → (p ≡ true) × (q ≡ true)
and_true p q h = ground arith

module _ (b : Browser) where
  parse_to-shown_to : (to : Option String) → parse_to b (shown_to to) ≡ parse_to b to
  unfolding parse_to
  parse_to-shown_to none = refl
  parse_to-shown_to (some t) = elim (Bool-cases (t == "")) [
    | inl h ↦ rw h refl
    | inr h ↦ rw h (rw h refl)
  ]

  pub parse-shown_to :
      (from to : Option String)
      → parse_time_params b from (shown_to to) ≡ parse_time_params b from to
  unfolding parse_time_params parse_absolute
  parse-shown_to none to = refl
  parse-shown_to (some f) to = rw (parse_to-shown_to to) refl

  -- The range was computed for the parameters of the URL as it is.
  abbrev pub IsCurrent : Provider → Type 0
  IsCurrent p = (get p.search "from" ≡ p.url_from) × (get p.search "to" ≡ p.url_to)

  -- Where the parameters that it was computed for give a range, it is that one.
  abbrev pub IsFresh : Provider → Type 0
  IsFresh p = (r : StoredRange) → parse_time_params b p.url_from p.url_to ≡ some r → p.range ≡ r

  -- What a successful render leaves: the URL as it was, and the range for it.
  abbrev pub IsRendered : Provider → Provider → Type 0
  IsRendered p q = (q.search ≡ p.search) × IsCurrent q × (IsFresh p → IsFresh q)

  abbrev pub made : List (String × String) → Option String → StoredRange → Provider
  made search stored range = record {
    search = search;
    stored = stored;
    range = range;
    url_from = get search "from";
    url_to = get search "to";
  }

  pub mount-made :
      (search : List (String × String)) (stored : Option String) (p : Provider)
      → mount b search stored ≡ some p
      → (range : StoredRange) × (resolve b (get search "from") (get search "to") stored
          ≡ some range)
        × (made search stored range ≡ p)
  unfolding mount with_range
  mount-made search stored p e =
      elim (Option-cases (resolve b (get search "from") (get search "to") stored)) [
        | inl h ↦ ground (arith, h, e)
        | inr (range, h) ↦ elim (Option-cases (context_from b range)) [
          | inl k ↦ ground (arith, h, k, e)
          | inr (from, k) ↦ (range, h, some_inj.0 (rw (h, k) at e))
        ]
      ]

  made-IsFresh :
      (search : List (String × String)) (stored : Option String) (range : StoredRange)
      → resolve b (get search "from") (get search "to") stored ≡ some range
      → IsFresh (made search stored range)
  unfolding resolve
  made-IsFresh search stored range h r e = sym (some_inj.0 (sym (rw e refl) ∙ h))

  mount-IsFresh :
      (search : List (String × String)) (stored : Option String) (p : Provider)
      → mount b search stored ≡ some p
      → IsFresh p
  mount-IsFresh search stored p e =
      let (range, h, same) = mount-made search stored p e in
      subst IsFresh same (made-IsFresh search stored range h)

  pub mount-IsRendered :
      (search : List (String × String)) (stored : Option String) (p : Provider)
      → mount b search stored ≡ some p
      → (p.search ≡ search) × IsCurrent p
  mount-IsRendered search stored p e =
      let (range, h, same) = mount-made search stored p e in
      subst (λ q. (q.search ≡ search) × IsCurrent q) same (refl, (refl, refl))

  same_text→eq : (s t : Option String) → same_text s t ≡ true → s ≡ t
  same_text→eq none none h = refl
  same_text→eq none (some t) h = ground (arith, h)
  same_text→eq (some s) none h = ground (arith, h)
  same_text→eq (some s) (some t) h = ap some ((eq_iff s t).0 h)

  same_text_refl : (s : Option String) → same_text s s ≡ true
  same_text_refl none = refl
  same_text_refl (some s) = eq_refl s

  unfoldable pub same_deps : Provider → Bool
  same_deps p = same_text (get p.search "from") p.url_from && same_text (get p.search "to") p.url_to

  pub render-IsRendered : (p q : Provider) → render b p ≡ some q → IsRendered p q
  unfolding render same_deps
  render-IsRendered p q e = elim (Bool-cases (same_deps p)) [
    | inl h ↦
        let both = and_true (same_text (get p.search "from") p.url_from) _ h in
        subst (IsRendered p) (some_inj.0 (rw h at e))
          (refl, (same_text→eq _ _ both.0, same_text→eq _ _ both.1), λ fresh. fresh)
    | inr h ↦
        let again : mount b p.search p.stored ≡ some q = rw h at e in
        let (search, current) = mount-IsRendered p.search p.stored q again in
        (search, current, λ fresh. mount-IsFresh p.search p.stored q again)
  ]

  -- A render for parameters that give a range takes it, where its `from` can be computed.
  pub render-parsed :
      (p : Provider) (r : StoredRange) (from : String)
      → IsFresh p
      → parse_time_params b (get p.search "from") (get p.search "to") ≡ some r
      → context_from b r ≡ some from
      → (q : Provider) × (render b p ≡ some q) × (q.range ≡ r)
  unfolding render mount resolve with_range same_deps
  render-parsed p r from fresh e k = elim (Bool-cases (same_deps p)) [
    | inl h ↦
        let both = and_true (same_text (get p.search "from") p.url_from) _ h in
        let f = same_text→eq (get p.search "from") p.url_from both.0 in
        let t = same_text→eq (get p.search "to") p.url_to both.1 in
        (p, rw h refl, fresh r (rw (f, t) at e))
    | inr h ↦ (made p.search p.stored r, rw (h, e, k) refl, refl)
  ]

  pub render-current : (p : Provider) → IsCurrent p → render b p ≡ some p
  unfolding render
  render-current p (f, t) = rw (f, t, same_text_refl p.url_from, same_text_refl p.url_to) refl

  pub commit-save_range :
      (p : Provider)
      → IsCurrent p
      → has_text p.url_from ≡ true
      → commit b p ≡ some (save_range b p.range p)
  unfolding commit effect
  commit-save_range p current h = rw (render-current p current, h) refl

  -- The state after a render `q` with `from` in the URL.
  abbrev pub settled : Provider → Provider
  settled q = save_range b q.range q

  pub commit-settled :
      (p q : Provider)
      → render b p ≡ some q
      → has_text (get p.search "from") ≡ true
      → (commit b p ≡ some (settled q)) × (commit b (settled q) ≡ some (settled q))
  unfolding commit effect save_range
  commit-settled p q e h =
      let (search, current, fresh) = render-IsRendered p q e in
      let text : has_text q.url_from ≡ true =
        ap has_text (sym current.0 ∙ ap (λ m. get m "from") search) ∙ h in
      (rw (e, text) refl, commit-save_range (settled q) current text)

  -- What the provider can come to: renders with their effects, choices, other URLs, and the writes
  -- of other tabs to the storage.
  pub data Reached : Provider → Type 0 where
    mounted :
        (search : List (String × String)) (stored : Option String) (p : Provider)
        → mount b search stored ≡ some p
        → Reached p
    committed : (p q : Provider) → Reached p → commit b p ≡ some q → Reached q
    chosen : (r : StoredRange) (p q : Provider) → Reached p → set_range b r p ≡ some q → Reached q
    navigated :
        (search : List (String × String)) (p : Provider)
        → Reached p
        → Reached (record p { search = search })
    written :
        (item : Option String) (p : Provider) → Reached p → Reached (record p { stored = item })

  write_range-IsFresh :
      (r : StoredRange) (p q : Provider) → IsFresh p → write_range b r p ≡ some q → IsFresh q
  unfolding write_range
  write_range-IsFresh r p q fresh e = elim (Option-cases (range_to_params b r)) [
    | inl h ↦ ground (arith, h, e)
    | inr (params, h) ↦ subst IsFresh (some_inj.0 (rw h at e)) fresh
  ]

  effect-IsFresh : (p q : Provider) → IsFresh p → effect b p ≡ some q → IsFresh q
  unfolding effect save_range
  effect-IsFresh p q fresh e = elim (Bool-cases (has_text p.url_from)) [
    | inl h ↦ subst IsFresh (some_inj.0 (rw h at e)) fresh
    | inr h ↦ write_range-IsFresh p.range p q fresh (rw h at e)
  ]

  commit-IsFresh : (p q : Provider) → IsFresh p → commit b p ≡ some q → IsFresh q
  unfolding commit
  commit-IsFresh p q fresh e = elim (Option-cases (render b p)) [
    | inl h ↦ ground (arith, h, e)
    | inr (s, h) ↦
        let (search, current, still) = render-IsRendered p s h in
        effect-IsFresh s q (still fresh) (rw h at e)
  ]

  pub reached-IsFresh : (p : Provider) → Reached p → IsFresh p
  unfolding set_range save_range
  reached-IsFresh _ (Reached.mounted params item p e) = mount-IsFresh params item p e
  reached-IsFresh _ (Reached.committed p q h e) = commit-IsFresh p q (reached-IsFresh p h) e
  reached-IsFresh _ (Reached.chosen r p q h e) =
      write_range-IsFresh r (save_range b r p) q (reached-IsFresh p h) e
  reached-IsFresh _ (Reached.navigated params p h) = reached-IsFresh p h
  reached-IsFresh _ (Reached.written item p h) = reached-IsFresh p h
