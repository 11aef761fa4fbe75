-- ===== src/TimeRange/Choices.antt =====
-- What the provider does with a range that is chosen or loaded: setDays, setAbsoluteRange and the
-- effect of TimeRangeProvider in ui/src/lib/time-range-context.tsx.
use tropek.Prelude.{
  String, ◌≡◌, refl, ap, ◌∙◌, inl, inr, true, not, Option, none, some, List, arith, Bool-cases,
  Option-cases, and_then,
}
use mathlib.Core.Option.{some_inj}
use mathlib.Core.Path.{subst}
use tropek.Js.Map.{get}
use tropek.TimeRange.{StoredRange, Browser, BrowserLaws, parse_time_params, range_to_params}
use tropek.TimeRange.RoundTrip.{
  not_empty-range_to_params, IsChosen, parse_time_params-range_to_params,
}
use tropek.TimeRange.Provider.{
  context_from, other_params, Provider, has_text, save_range, put_params, write_range, effect,
  commit, set_range,
}
use tropek.TimeRange.Params.{get-put_params, other_params-put_params}
use tropek.TimeRange.Sessions.{
  parse-shown_to, IsFresh, IsCurrent, settled, commit-settled, render-IsRendered, render-parsed,
  reached-IsFresh, Reached,
}

module _ (b : Browser) where
  -- The choice of a range led to a state: the range is in use and in the storage, the other
  -- parameters of the URL are as they were, and another render changes nothing.
  abbrev pub IsUsed : StoredRange → Provider → Provider → Type 0
  IsUsed r p q =
      (q.range ≡ r)
      × (q.stored ≡ some (b.print_range r))
      × (other_params q.search ≡ other_params p.search)
      × (commit b q ≡ some q)

  abbrev written : StoredRange → String × Option String → Provider → Provider
  written r params p = record p {
    search = put_params params p.search;
    stored = some (b.print_range r);
  }

  set_range-written :
      (r : StoredRange) (p : Provider) (params : String × Option String)
      → range_to_params b r ≡ some params
      → set_range b r p ≡ some (written r params p)
  unfolding set_range save_range write_range
  set_range-written r p params e = rw e refl

  has_text-put_params :
      (r : StoredRange) (params : String × Option String) (m : List (String × String))
      → range_to_params b r ≡ some params
      → has_text (get (put_params params m) "from") ≡ true
  unfolding has_text
  has_text-put_params r params m e =
      rw (get-put_params params.0 params.1 m "from")
        (ap not (not_empty-range_to_params b r params e))

  parse-written :
      (r : StoredRange) (p : Provider) (params : String × Option String)
      → parse_time_params b (some params.0) params.1 ≡ some r
      → let next = written r params p in
        parse_time_params b (get next.search "from") (get next.search "to") ≡ some r
  parse-written r p params parsed =
      let started = get-put_params params.0 params.1 p.search "from" in
      let ended = get-put_params params.0 params.1 p.search "to" in
      rw (started, ended) (parse-shown_to b (some params.0) params.1 ∙ parsed)

  choice-IsUsed :
      (r : StoredRange) (from : String) (p : Provider) (params : String × Option String)
      → IsFresh b p
      → range_to_params b r ≡ some params
      → parse_time_params b (some params.0) params.1 ≡ some r
      → context_from b r ≡ some from
      → (q : Provider) × (and_then (set_range b r p) (commit b) ≡ some q) × IsUsed r p q
  unfolding save_range
  choice-IsUsed r from p params fresh e parsed k =
      let next : Provider = written r params p in
      let (q, drawn, range) =
        render-parsed b next r from fresh (parse-written r p params parsed) k in
      let (search, current, still) = render-IsRendered b next q drawn in
      let (now, again) = commit-settled b next q drawn (has_text-put_params r params p.search e) in
      (
        settled b q,
        rw (set_range-written r p params e) now,
        (
          range,
          ap (λ x. some (b.print_range x)) range,
          ap other_params search ∙ other_params-put_params params.0 params.1 p.search,
          again,
        ),
      )

  -- In every state that the provider can come to, a range that the page chooses and whose `from` can
  -- be computed (a number of days that leads to a date) is, after the next render, the one in use and
  -- in the storage, the other parameters of the URL keep their values and order, and further renders
  -- change nothing.
  pub set_range-IsUsed :
      (laws : BrowserLaws b) (p : Provider) (r : StoredRange) (from : String)
      → Reached b p
      → IsChosen b r
      → context_from b r ≡ some from
      → (q : Provider) × (and_then (set_range b r p) (commit b) ≡ some q) × IsUsed r p q
  set_range-IsUsed laws p r from reached choice k =
      let back = parse_time_params-range_to_params b laws r choice in
      elim (Option-cases (range_to_params b r)) [
        | inl h ↦ let impossible : none ≡ some r = rw h at back in ground (arith, impossible)
        | inr (params, h) ↦
            choice-IsUsed r from p params (reached-IsFresh b p reached) h (rw h at back) k
      ]

  -- An effect leaves a URL with a `from` for the next render, with the other parameters as they were.
  pub effect-leaves :
      (first p : Provider)
      → IsCurrent b first
      → effect b first ≡ some p
      → (has_text (get p.search "from") ≡ true)
        × (other_params p.search ≡ other_params first.search)
  unfolding effect save_range write_range
  effect-leaves first p current e = elim (Bool-cases (has_text first.url_from)) [
    | inl h ↦
        subst
          (λ q.
            (has_text (get q.search "from") ≡ true)
            × (other_params q.search ≡ other_params first.search))
          (some_inj.0 (rw h at e)) (rw current.0 h, refl)
    | inr h ↦ elim (Option-cases (range_to_params b first.range)) [
      | inl k ↦ ground (arith, h, k, e)
      | inr (params, k) ↦
          subst
            (λ q.
              (has_text (get q.search "from") ≡ true)
              × (other_params q.search ≡ other_params first.search))
            (some_inj.0 (rw (h, k) at e))
            (
              has_text-put_params first.range params first.search k,
              other_params-put_params params.0 params.1 first.search,
            )
    ]
  ]
