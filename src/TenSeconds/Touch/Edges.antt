-- ===== src/TenSeconds/Touch/Edges.antt =====
-- The presses of the touch screen are the touches that its reports begin.
use nes_deck.Prelude.Integers.{ℤ}
use nes_deck.Prelude.{
  ◌≡◌, refl, ap, ap₂, ◌∙◌, Bool, true, false, not, ◌&&◌, List, [], ◌∷◌, ◌++◌, All, if◌then◌else◌,
}
use nes_deck.TenSeconds.{TouchPress}
use nes_deck.TenSeconds.Touch.{
  Answers, InputEvent, syn_dropped, other_event, syn_report, abs_x, abs_y, btn_touch, TouchDevice,
  resynchronize, report, dropped_event, plain_event, touch_event, touch_events,
}
use nes_deck.TenSeconds.Touch.Seen.{lost, touched, across, below, seen, Told, touch_event-Told}
use nes_deck.TenSeconds.Touch.Place.{OnScreen, PressOnScreen, touch_events-Good}

-- What the screen tells at each report, after the events `earlier`, of which the latest is in front.
unfoldable pub reports : TouchDevice → List InputEvent → List InputEvent → List (TouchPress × Bool)
reports start earlier [] = []
reports start earlier (syn_report a ∷ events) =
    seen start (syn_report a ∷ earlier) ∷ reports start (syn_report a ∷ earlier) events
reports start earlier (e ∷ events) = reports start (e ∷ earlier) events

-- The places where a touch begins, given whether the screen was touched before.
unfoldable pub touches_begun : Bool → List (TouchPress × Bool) → List TouchPress
touches_begun before [] = []
touches_begun before ((place, touch) ∷ states) =
    let rest = touches_begun touch states in if touch && not before then place ∷ rest else rest

-- An event that is no report: no press, and the last report still holds.
abbrev Silent : TouchDevice → List TouchPress × TouchDevice → Type 0
Silent t (presses, t') = (presses ≡ []) × (t'.reported_down ≡ t.reported_down)

choose-Silent :
    (t : TouchDevice) (b : Bool) (p q : List TouchPress × TouchDevice)
    → Silent t p
    → Silent t q
    → Silent t (if b then p else q)
choose-Silent t true p q h k = h
choose-Silent t false p q h k = k

-- A report: a press where the touch begins, and the state is remembered.
abbrev Tells : TouchDevice → List TouchPress × TouchDevice → Type 0
Tells t (presses, t') =
    (presses ≡ (if t'.down && not t.reported_down then record { x = t'.x; y = t'.y } ∷ [] else []))
    × (t'.reported_down ≡ t'.down)

choose-Tells :
    (t : TouchDevice) (b : Bool) (p q : List TouchPress × TouchDevice)
    → Tells t p
    → Tells t q
    → Tells t (if b then p else q)
choose-Tells t true p q h k = h
choose-Tells t false p q h k = k

report-Tells : (a : Answers) (t : TouchDevice) → Tells t (touch_event (syn_report a) t)
unfolding touch_event dropped_event plain_event report resynchronize
report-Tells a t =
    choose-Tells t t.dropping (dropped_event (syn_report a) t) (plain_event (syn_report a) t)
      (refl, refl) (refl, refl)

dropped-Silent : (t : TouchDevice) → Silent t (touch_event syn_dropped t)
unfolding touch_event
dropped-Silent t = (refl, refl)

other-Silent : (t : TouchDevice) → Silent t (touch_event other_event t)
unfolding touch_event dropped_event plain_event
other-Silent t =
    choose-Silent t t.dropping (dropped_event other_event t) (plain_event other_event t)
      (refl, refl) (refl, refl)

abs_x-Silent : (value : ℤ) (t : TouchDevice) → Silent t (touch_event (abs_x value) t)
unfolding touch_event dropped_event plain_event
abs_x-Silent value t =
    choose-Silent t t.dropping (dropped_event (abs_x value) t) (plain_event (abs_x value) t)
      (refl, refl) (refl, refl)

abs_y-Silent : (value : ℤ) (t : TouchDevice) → Silent t (touch_event (abs_y value) t)
unfolding touch_event dropped_event plain_event
abs_y-Silent value t =
    choose-Silent t t.dropping (dropped_event (abs_y value) t) (plain_event (abs_y value) t)
      (refl, refl) (refl, refl)

btn_touch-Silent : (value : ℤ) (t : TouchDevice) → Silent t (touch_event (btn_touch value) t)
unfolding touch_event dropped_event plain_event
btn_touch-Silent value t =
    choose-Silent t t.dropping (dropped_event (btn_touch value) t) (plain_event (btn_touch value) t)
      (refl, refl) (refl, refl)

append_if :
    (b : Bool) (p : TouchPress) (rest : List TouchPress)
    → (if b then p ∷ [] else []) ++ rest ≡ (if b then p ∷ rest else rest)
append_if true p rest = refl
append_if false p rest = refl

-- What a device shows.
abbrev shown : TouchDevice → TouchPress × Bool
shown t = (record { x = t.x; y = t.y }, t.down)

shown-seen :
    (start : TouchDevice) (earlier : List InputEvent) (t : TouchDevice)
    → Told start earlier t
    → shown t ≡ seen start earlier
shown-seen start earlier t h =
    ap (λ n. (record { x = n; y = t.y }, t.down)) h.told_across
    ∙ ap (λ n. (record { x = across start earlier; y = n }, t.down)) h.told_below
    ∙ ap (λ b. (record { x = across start earlier; y = below start earlier }, b)) h.told_touch

touches_begun-report :
    (t : TouchDevice) (p : List TouchPress × TouchDevice) (states : List (TouchPress × Bool))
    → Tells t p
    → p.0 ++ touches_begun p.1.reported_down states
      ≡ touches_begun t.reported_down (shown p.1 ∷ states)
unfolding touches_begun
touches_begun-report t (presses, t') states (is, held) =
    ap₂ ◌++◌ is (ap (λ b. touches_begun b states) held)
    ∙ append_if (t'.down && not t.reported_down) (record { x = t'.x; y = t'.y })
        (touches_begun t'.down states)

-- An event that is no report leaves what follows to the rest.
touches_begun-Silent :
    (t : TouchDevice) (p : List TouchPress × TouchDevice) (rest : List TouchPress)
    (states : List (TouchPress × Bool))
    → Silent t p
    → rest ≡ touches_begun p.1.reported_down states
    → p.0 ++ rest ≡ touches_begun t.reported_down states
touches_begun-Silent t (presses, t') rest states (is, held) e =
    ap (λ ps. ps ++ rest) is ∙ e ∙ ap (λ b. touches_begun b states) held

touch_events-begun :
    (start : TouchDevice) (earlier events : List InputEvent) (t : TouchDevice)
    → Told start earlier t
    → (touch_events events t).0 ≡ touches_begun t.reported_down (reports start earlier events)
unfolding touch_events reports
touch_events-begun start earlier [] t h = unfold touches_begun in refl
touch_events-begun start earlier (syn_report a ∷ events) t h =
    let now = touch_event (syn_report a) t in
    let told = touch_event-Told start (syn_report a) earlier t h in
    let later = reports start (syn_report a ∷ earlier) events in
    ap (λ ps. now.0 ++ ps) (touch_events-begun start (syn_report a ∷ earlier) events now.1 told)
    ∙ touches_begun-report t now later (report-Tells a t)
    ∙ ap (λ s. touches_begun t.reported_down (s ∷ later)) (shown-seen start _ now.1 told)
touch_events-begun start earlier (syn_dropped ∷ events) t h =
    touches_begun-Silent t (touch_event syn_dropped t) _ _ (dropped-Silent t) (
      touch_events-begun start (syn_dropped ∷ earlier) events _
        (touch_event-Told start syn_dropped earlier t h))
touch_events-begun start earlier (other_event ∷ events) t h =
    touches_begun-Silent t (touch_event other_event t) _ _ (other-Silent t) (
      touch_events-begun start (other_event ∷ earlier) events _
        (touch_event-Told start other_event earlier t h))
touch_events-begun start earlier (abs_x value ∷ events) t h =
    touches_begun-Silent t (touch_event (abs_x value) t) _ _ (abs_x-Silent value t) (
      touch_events-begun start (abs_x value ∷ earlier) events _
        (touch_event-Told start (abs_x value) earlier t h))
touch_events-begun start earlier (abs_y value ∷ events) t h =
    touches_begun-Silent t (touch_event (abs_y value) t) _ _ (abs_y-Silent value t) (
      touch_events-begun start (abs_y value ∷ earlier) events _
        (touch_event-Told start (abs_y value) earlier t h))
touch_events-begun start earlier (btn_touch value ∷ events) t h =
    touches_begun-Silent t (touch_event (btn_touch value) t) _ _ (btn_touch-Silent value t) (
      touch_events-begun start (btn_touch value ∷ earlier) events _
        (touch_event-Told start (btn_touch value) earlier t h))

start-Told : (t : TouchDevice) → Told t [] t
unfolding lost touched across below
start-Told t = record { told_lost = refl; told_touch = refl; told_across = refl; told_below = refl }

-- Whatever events are read, by a device whose place is on the screen: the presses are the places where
-- a touch begins from one report to the next, one for each. A place and a touch at a report are what
-- the events have told by then: the last value of each axis, moved onto the screen, and the last value
-- of the touch, but that events between an overrun and the next report tell nothing and what that
-- report answers stands instead. The presses and the place of the device afterwards lie on the screen.
pub touch_events-edges :
    (events : List InputEvent) (t : TouchDevice)
    → OnScreen t
    → ((touch_events events t).0 ≡ touches_begun t.reported_down (reports t [] events))
      × All PressOnScreen (touch_events events t).0
      × OnScreen (touch_events events t).1
touch_events-edges events t h =
    let (presses, on) = touch_events-Good events t h in
    (touch_events-begun t [] events t (start-Told t), presses, on)
