-- ===== src/TenSeconds/Touch/Place.antt =====
-- The presses of the touch screen lie on it.
use nes_deck.Prelude.Integers.{negsuc, pos, ℤ}
use nes_deck.Prelude.{
  ℕ, ◌≤◌, ◌≡◌, refl, arith, Bool, true, false, not, ◌&&◌, Bool-cases, inl, inr, List, [], ◌∷◌,
  Option, none, some, All, All-append, if◌then◌else◌,
}
use nes_deck.TenSeconds.{TouchPress}
use nes_deck.TenSeconds.Touch.{
  clamp, Answers, InputEvent, syn_dropped, other_event, syn_report, abs_x, abs_y, btn_touch,
  TouchDevice, last_x, last_y, or_else, resynchronize, report, dropped_event, plain_event,
  touch_event, touch_events,
}

-- On the screen.
pub record OnScreen (t : TouchDevice) : Type 0 where
  pub in_width : t.x ≤ last_x
  pub in_height : t.y ≤ last_y

abbrev pub PressOnScreen : TouchPress → Type 0
PressOnScreen p = (p.x ≤ last_x) × (p.y ≤ last_y)

-- Presses on the screen, and a state that is.
abbrev pub Good : List TouchPress × TouchDevice → Type 0
Good (presses, t) = All PressOnScreen presses × OnScreen t

clamp-le : (limit : ℕ) (value : ℤ) → clamp limit value ≤ limit
unfolding clamp
clamp-le limit (pos n) = omega arith
clamp-le limit (negsuc n) = omega arith

or_else-le :
    (limit before : ℕ) (value : Option ℤ) → before ≤ limit → or_else limit before value ≤ limit
or_else-le limit before none h = h
or_else-le limit before (some value) h = clamp-le limit value

resynchronize-OnScreen : (a : Answers) (t : TouchDevice) → OnScreen t → OnScreen (resynchronize a t)
unfolding resynchronize
resynchronize-OnScreen a t h = record {
  in_width = or_else-le last_x t.x a.answered_x h.in_width;
  in_height = or_else-le last_y t.y a.answered_y h.in_height;
}

report-Good : (t : TouchDevice) → OnScreen t → Good (report t)
unfolding report
report-Good t h = elim (Bool-cases (t.down && not t.reported_down)) [
  | inl e ↦
      rw e
        (((h.in_width, h.in_height), tt), record { in_width = h.in_width; in_height = h.in_height })
  | inr e ↦ rw e (tt, record { in_width = h.in_width; in_height = h.in_height })
]

-- A change that leaves the place alone.
same_place : (t r : TouchDevice) → r.x ≡ t.x → r.y ≡ t.y → OnScreen t → OnScreen r
same_place t r e f h = record {
  in_width = omega (arith, e, h.in_width);
  in_height = omega (arith, f, h.in_height);
}

dropped_event-Good : (e : InputEvent) (t : TouchDevice) → OnScreen t → Good (dropped_event e t)
unfolding dropped_event
dropped_event-Good syn_dropped t h = (tt, h)
dropped_event-Good other_event t h = (tt, h)
dropped_event-Good (abs_x value) t h = (tt, h)
dropped_event-Good (abs_y value) t h = (tt, h)
dropped_event-Good (btn_touch value) t h = (tt, h)
dropped_event-Good (syn_report a) t h =
    let (presses, place) = report-Good (resynchronize a t) (resynchronize-OnScreen a t h) in
    (presses, same_place _ _ refl refl place)

plain_event-Good : (e : InputEvent) (t : TouchDevice) → OnScreen t → Good (plain_event e t)
unfolding plain_event
plain_event-Good syn_dropped t h = (tt, h)
plain_event-Good other_event t h = (tt, h)
plain_event-Good (abs_x value) t h =
    (tt, record { in_width = clamp-le last_x value; in_height = h.in_height })
plain_event-Good (abs_y value) t h =
    (tt, record { in_width = h.in_width; in_height = clamp-le last_y value })
plain_event-Good (btn_touch value) t h = (tt, same_place t _ refl refl h)
plain_event-Good (syn_report a) t h = report-Good t h

choose-Good :
    (b : Bool) (p q : List TouchPress × TouchDevice) → Good p → Good q → Good (if b then p else q)
choose-Good true p q h k = h
choose-Good false p q h k = k

either-Good :
    (e : InputEvent) (t : TouchDevice)
    → OnScreen t
    → Good (if t.dropping then dropped_event e t else plain_event e t)
either-Good e t h =
    choose-Good t.dropping (dropped_event e t) (plain_event e t) (dropped_event-Good e t h)
      (plain_event-Good e t h)

touch_event-Good : (e : InputEvent) (t : TouchDevice) → OnScreen t → Good (touch_event e t)
unfolding touch_event
touch_event-Good syn_dropped t h = (tt, same_place t _ refl refl h)
touch_event-Good other_event t h = either-Good other_event t h
touch_event-Good (abs_x value) t h = either-Good (abs_x value) t h
touch_event-Good (abs_y value) t h = either-Good (abs_y value) t h
touch_event-Good (btn_touch value) t h = either-Good (btn_touch value) t h
touch_event-Good (syn_report a) t h = either-Good (syn_report a) t h

pub touch_events-Good :
    (events : List InputEvent) (t : TouchDevice) → OnScreen t → Good (touch_events events t)
unfolding touch_events
touch_events-Good [] t h = (tt, h)
touch_events-Good (e ∷ events) t h =
    let (presses, on) = touch_event-Good e t h in
    let (more, on') = touch_events-Good events (touch_event e t).1 on in
    (
      All-append PressOnScreen (touch_event e t).0 (touch_events events (touch_event e t).1).0
          presses more,
      on',
    )
