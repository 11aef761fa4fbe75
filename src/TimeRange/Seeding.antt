-- ===== src/TimeRange/Seeding.antt =====
-- The provider from its first render to the second: the effect that writes the range to the URL, in
-- ui/src/lib/time-range-context.tsx.
use tropek.Prelude.{
  String, ◌≡◌, refl, sym, ap, ◌∙◌, inl, inr, true, Option, none, some, List, arith, Bool-cases,
  Option-cases,
}
use tropek.Js.Map.{get}
use mathlib.Core.Option.{some_inj}
use mathlib.Core.Path.{subst}
use tropek.TimeRange.{StoredRange, Browser, BrowserLaws, parse_time_params, range_to_params}
use tropek.TimeRange.Provider.{
  other_params, Provider, has_text, context_from, load_range, resolve, save_range, with_range,
  mount, render, put_params, write_range, effect, commit,
}
use tropek.TimeRange.Params.{get-put_params}
use tropek.TimeRange.Sessions.{
  parse-shown_to, made, mount-IsRendered, render-current, render-IsRendered, same_deps, settled,
  commit-settled,
}
use tropek.TimeRange.Choices.{effect-leaves}
use tropek.TimeRange.Dated.{
  IsDated, range_to_params_total, params_of-IsDated, parse_time_params-no_text,
}

module _ (b : Browser) where
  mount-resolved :
      (search : List (String × String)) (stored : Option String) (r : StoredRange)
      → resolve b (get search "from") (get search "to") stored ≡ some r
      → IsDated b r
      → (q : Provider) × (mount b search stored ≡ some q)
  unfolding mount with_range
  mount-resolved search stored r e (iso, k) = (made b search stored r, rw (e, k) refl)

  -- What the first render found out about its range.
  IsMounted : List (String × String) → Option String → Provider → Type 0
  IsMounted search stored p =
      (resolve b (get search "from") (get search "to") stored ≡ some p.range)
      × IsDated b p.range
      × (p.stored ≡ stored)
      × (p.url_from ≡ get search "from")

  mount-IsMounted :
      (search : List (String × String)) (stored : Option String) (p : Provider)
      → mount b search stored ≡ some p
      → IsMounted search stored p
  unfolding mount with_range IsMounted
  mount-IsMounted search stored p e =
      elim (Option-cases (resolve b (get search "from") (get search "to") stored)) [
        | inl h ↦ ground (arith, h, e)
        | inr (range, h) ↦ elim (Option-cases (context_from b range)) [
          | inl k ↦ ground (arith, h, k, e)
          | inr (from, k) ↦
              subst (IsMounted search stored) (some_inj.0 (rw (h, k) at e))
                (h, (from, k), refl, refl)
        ]
      ]

  -- The second render does not throw.
  seeded-render :
      (first : Provider) (params : String × Option String)
      → load_range b first.stored ≡ some first.range
      → IsDated b first.range
      → range_to_params b first.range ≡ some params
      → let p = record first { search = put_params params first.search } in
        (second : Provider) × (render b p ≡ some second)
  unfolding render same_deps resolve range_to_params
  seeded-render first params loaded dated e =
      let p : Provider = record first { search = put_params params first.search } in
      let started = get-put_params params.0 params.1 first.search "from" in
      let ended = get-put_params params.0 params.1 first.search "to" in
      elim (Bool-cases (same_deps b p)) [
        | inl h ↦ (p, rw h refl)
        | inr h ↦
            let again : (q : Provider) × (mount b p.search p.stored ≡ some q) =
              elim (Option-cases (parse_time_params b (get p.search "from") (get p.search "to"))) [
                | inl k ↦ mount-resolved p.search p.stored first.range (rw k loaded) dated
                | inr (back, k) ↦ mount-resolved p.search p.stored back (rw k refl) (
                    params_of-IsDated b first.range.mode first.range params back refl dated e
                      (sym (parse-shown_to b (some params.0) params.1) ∙ rw (started, ended) at k))
              ] in
            (again.0, rw h (again.1))
      ]

  effect-render :
      (search : List (String × String)) (stored : Option String) (first : Provider)
      → BrowserLaws b
      → mount b search stored ≡ some first
      → (p second : Provider) × (effect b first ≡ some p) × (render b p ≡ some second)
  unfolding effect save_range write_range IsMounted resolve
  effect-render search stored first laws e =
      let (drawn, current) = mount-IsRendered b search stored first e in
      let (found, dated, kept, url) = mount-IsMounted search stored first e in
      elim (Bool-cases (has_text first.url_from)) [
        | inl h ↦
            let p = save_range b first.range first in (p, p, rw h refl, render-current b p current)
        | inr h ↦
            let (params, k) = range_to_params_total b laws first.range in
            let nothing : parse_time_params b (get search "from") (get search "to") ≡ none =
              parse_time_params-no_text b (get search "from") (get search "to") (rw url at h) in
            let loaded : load_range b first.stored ≡ some first.range =
              ap (load_range b) kept ∙ rw nothing at found in
            let (second, rendered) = seeded-render first params loaded dated k in
            (
              record first { search = put_params params first.search },
              second,
              rw (h, k) refl,
              rendered,
            )
      ]

  -- Where the first render does not throw, with the browser's documented behaviour and whatever the
  -- URL and the storage hold, its effect and the next render with its effect do not throw either,
  -- and they settle the provider: no further render throws or changes anything, the URL has a
  -- `from`, the storage has the range in use, and the other parameters of the URL are as they were.
  pub effect-settles :
      (search : List (String × String)) (stored : Option String) (first : Provider)
      → BrowserLaws b
      → mount b search stored ≡ some first
      → (p q : Provider) × (effect b first ≡ some p)
        × (commit b p ≡ some q)
        × (commit b q ≡ some q)
        × (q.stored ≡ some (b.print_range q.range))
        × (has_text (get q.search "from") ≡ true)
        × (other_params q.search ≡ other_params search)
  unfolding save_range
  effect-settles search stored first laws e =
      let (p, second, f, g) = effect-render search stored first laws e in
      let (drawn, current) = mount-IsRendered b search stored first e in
      let (text, others) = effect-leaves b first p current f in
      let (kept, now_current, still) = render-IsRendered b p second g in
      let (now, again) = commit-settled b p second g text in
      (
        p,
        settled b second,
        f,
        now,
        again,
        refl,
        ap (λ m. has_text (get m "from")) kept ∙ text,
        ap other_params kept ∙ others ∙ ap other_params drawn,
      )
