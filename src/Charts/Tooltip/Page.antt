-- ===== src/Charts/Tooltip/Page.antt =====
-- The page around the watchdog: which charts show a tooltip, which are disposed, and how often the
-- listeners are registered. ECharts shows a tooltip before it reports it, hides one on `hideTip`,
-- and takes it away with its chart.
use tropek.Prelude.{
  ℕ, ◌+◌, ◌-◌, ◌≡◌, refl, inl, inr, Bool, true, false, Option, none, some, List, [], ◌∷◌, arith,
  ltb, eqb, if◌then◌else◌, Option-cases, is_some,
}
use tropek.Charts.Tooltip.{
  ActiveTooltip, Watchdog, Action, hide_tip, downplay, add_listeners, remove_listeners,
  handle_pointer_move, handle_pointer_gone, track_tooltip, release_tooltip,
}

pub record Page : Type 0 where
  pub dog : Watchdog
  pub visible : ℕ → Bool
  pub disposed : ℕ → Bool
  -- how often each of the listeners is registered
  pub listeners : ℕ

abbrev pub update : (ℕ → Bool) → ℕ → Bool → ℕ → Bool
update f i b j = if eqb i j then b else f j

unfoldable pub act : Page → Action → Page
act p (hide_tip c) = record p { visible = update p.visible c false }
act p (downplay c) = p
act p add_listeners = record p { listeners = p.listeners + 1 }
act p remove_listeners = record p { listeners = p.listeners - 1 }

unfoldable pub act_all : Page → List Action → Page
unfolding act
act_all p [] = p
act_all p (x ∷ xs) = act_all (act p x) xs

pub data Event : Type 0 where
  -- ECharts shows the tooltip of a chart in a container and fires `showtip`.
  shown : (chart container : ℕ) → Event
  -- The pointer moves; the function says which containers hold its target.
  moved : (ℕ → Bool) → Event
  -- The pointer leaves the page, or the window loses the focus.
  gone : Event
  -- A chart is unmounted: it is released and disposed, and its tooltip goes with it.
  unmounted : (chart : ℕ) → Event

unfoldable pub perform : Page → Watchdog × List Action → Page
unfolding act_all
perform p (dog, actions) = act_all (record p { dog = dog }) actions

-- A disposed chart shows no tooltip any more, and a listener that is not registered is not called.
unfoldable pub step : Page → Event → Page
unfolding perform track_tooltip handle_pointer_move handle_pointer_gone release_tooltip
step p (shown chart container) =
    if p.disposed chart
    then p
    else perform (record p { visible = update p.visible chart true })
        (track_tooltip p.disposed chart container p.dog)
step p (moved holds) =
    if ltb 0 p.listeners then perform p (handle_pointer_move p.disposed holds p.dog) else p
step p gone = if ltb 0 p.listeners then perform p (handle_pointer_gone p.disposed p.dog) else p
step p (unmounted chart) =
    perform
      (record p { visible = update p.visible chart false; disposed = update p.disposed chart true })
      (release_tooltip chart p.dog)

unfoldable pub run : Page → List Event → Page
run p [] = p
run p (e ∷ es) = run (step p e) es

abbrev pub start : Page
start = record {
  dog = record { active = none; listeners_attached = false };
  visible = λ _. false;
  disposed = λ _. false;
  listeners = 0;
}

-- The chart whose tooltip the watchdog has on record.
abbrev pub is_active : Option ActiveTooltip → ℕ → Bool
is_active none c = false
is_active (some tooltip) c = eqb tooltip.chart c

-- Only the chart on record shows a tooltip, no disposed chart does, and each listener is registered
-- once if a chart is on record and not at all if none is.
pub record IsGuarded (p : Page) : Type 0 where
  pub attached : p.dog.listeners_attached ≡ is_some p.dog.active
  pub registered : p.listeners ≡ (if is_some p.dog.active then 1 else 0)
  pub single : (c : ℕ) → p.visible c ≡ true → is_active p.dog.active c ≡ true
  pub gone_with_chart : (c : ℕ) → p.disposed c ≡ true → p.visible c ≡ false

step-IsGuarded : (p : Page) (e : Event) → IsGuarded p → IsGuarded (step p e)
unfolding step
step-IsGuarded p (shown chart container) h = record {
  attached = ground arith;
  registered = ground arith;
  single = λ c v. ground (arith, h.single c, h.gone_with_chart c);
  gone_with_chart = λ c d. ground (arith, h.single c, h.gone_with_chart c);
}
step-IsGuarded p (moved holds) h = record {
  attached = ground arith;
  registered = ground arith;
  single = λ c v. ground (arith, h.single c, h.gone_with_chart c);
  gone_with_chart = λ c d. ground (arith, h.single c, h.gone_with_chart c);
}
step-IsGuarded p gone h = record {
  attached = ground arith;
  registered = ground arith;
  single = λ c v. ground (arith, h.single c, h.gone_with_chart c);
  gone_with_chart = λ c d. ground (arith, h.single c, h.gone_with_chart c);
}
step-IsGuarded p (unmounted chart) h = record {
  attached = ground arith;
  registered = ground arith;
  single = λ c v. ground (arith, h.single c, h.gone_with_chart c);
  gone_with_chart = λ c d. ground (arith, h.single c, h.gone_with_chart c);
}

run-IsGuarded : (p : Page) (es : List Event) → IsGuarded p → IsGuarded (run p es)
unfolding run
run-IsGuarded p [] h = h
run-IsGuarded p (e ∷ es) h = run-IsGuarded (step p e) es (step-IsGuarded p e h)

start-IsGuarded : IsGuarded start
start-IsGuarded = record {
  attached = refl;
  registered = refl;
  single = λ c v. cc;
  gone_with_chart = λ c d. cc;
}

-- Whatever happens on the page from its start, only the chart on record shows a tooltip, no disposed
-- chart does, and the listeners are registered exactly once while a chart is on record and not at
-- all otherwise.
pub run-start-IsGuarded : (es : List Event) → IsGuarded (run start es)
run-start-IsGuarded es = run-IsGuarded start es start-IsGuarded

single_tooltip :
    (o : Option ActiveTooltip) (c d : ℕ) → is_active o c ≡ true → is_active o d ≡ true → c ≡ d
single_tooltip none c d h k = cc
single_tooltip (some tooltip) c d h k = ground arith

-- At no time do two charts show a tooltip.
pub run-start-single :
    (es : List Event) (c d : ℕ)
    → (run start es).visible c ≡ true
    → (run start es).visible d ≡ true
    → c ≡ d
run-start-single es c d h k =
    let g = run-start-IsGuarded es in
    single_tooltip (run start es).dog.active c d (g.single c h) (g.single d k)

abbrev pub IsAway : Page → Event → Type 0
IsAway p gone = Unit
IsAway p (moved holds) =
    (tooltip : ActiveTooltip) → p.dog.active ≡ some tooltip → holds tooltip.container ≡ false
IsAway p _ = ⊥

hidden_gone : (p : Page) (c : ℕ) → IsGuarded p → (step p gone).visible c ≡ false
unfolding step
hidden_gone p c h = ground (arith, h.single c, h.gone_with_chart c)

hidden_moved :
    (p : Page) (holds : ℕ → Bool) (c : ℕ)
    → IsGuarded p
    → ((tooltip : ActiveTooltip) → p.dog.active ≡ some tooltip → holds tooltip.container ≡ false)
    → (step p (moved holds)).visible c ≡ false
unfolding step
hidden_moved p holds c h away = elim (Option-cases p.dog.active) [
  | inl e ↦ ground (arith, h.single c, h.gone_with_chart c)
  | inr (tooltip, e) ↦ ground (arith, away tooltip e, h.single c, h.gone_with_chart c)
]

-- Once the pointer leaves the page, or moves to a place outside the container of the chart on
-- record, no chart shows a tooltip.
pub run-start-hidden :
    (es : List Event) (e : Event) (c : ℕ)
    → IsAway (run start es) e
    → (step (run start es) e).visible c ≡ false
run-start-hidden es gone c h = hidden_gone (run start es) c (run-start-IsGuarded es)
run-start-hidden es (moved holds) c h =
    hidden_moved (run start es) holds c (run-start-IsGuarded es) h
run-start-hidden es (shown chart container) c h = elim h [ ]
run-start-hidden es (unmounted chart) c h = elim h [ ]
