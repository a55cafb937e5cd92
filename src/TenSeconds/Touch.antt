-- ===== src/TenSeconds/Touch.antt =====
-- `TouchDevice`: from the events of the touch screen to presses. An event is what the code tells
-- apart by type and code; a report carries what the screen would answer if it were asked for its
-- state at that moment.
pub mod Place
pub mod Seen
pub mod Edges
use nes_deck.Prelude.Integers.{ℤ, pos, negsuc}
use nes_deck.Prelude.{
  ℕ, zero, suc, ◌+◌, ◌≤◌, ◌≡◌, refl, ap, ◌∙◌, min, arith, Bool, true, false, not, ◌&&◌, Bool-cases,
  inl, inr, List, [], ◌∷◌, ◌++◌, Option, none, some, All, if◌then◌else◌,
}
use nes_deck.TenSeconds.{TouchPress}

-- `std::max(0, std::min(limit, value))`.
unfoldable pub clamp : ℕ → ℤ → ℕ
clamp limit (pos n) = min limit n
clamp limit (negsuc n) = 0

abbrev nonzero : ℤ → Bool
nonzero (pos zero) = false
nonzero _ = true

-- What the three requests of `resynchronize` answer, `none` where one fails.
pub record Answers : Type 0 where
  pub answered_x : Option ℤ
  pub answered_y : Option ℤ
  pub answered_down : Option Bool

pub data InputEvent : Type 0 where
  syn_dropped other_event : InputEvent
  syn_report : Answers → InputEvent
  abs_x abs_y btn_touch : ℤ → InputEvent

pub record TouchDevice : Type 0 where
  pub x : ℕ
  pub y : ℕ
  pub down : Bool
  pub reported_down : Bool
  pub dropping : Bool

abbrev pub last_x : ℕ
last_x = 1279

abbrev pub last_y : ℕ
last_y = 479

abbrev or_else : ℕ → ℕ → Option ℤ → ℕ
or_else limit before none = before
or_else limit before (some value) = clamp limit value

abbrev or_before : Bool → Option Bool → Bool
or_before before none = before
or_before before (some value) = value

unfoldable pub resynchronize : Answers → TouchDevice → TouchDevice
resynchronize a t = record t {
  x = or_else last_x t.x a.answered_x;
  y = or_else last_y t.y a.answered_y;
  down = or_before t.down a.answered_down;
}

-- The presses of a report, and the state after it.
unfoldable pub report : TouchDevice → List TouchPress × TouchDevice
report t = (
  if t.down && not t.reported_down then record { x = t.x; y = t.y } ∷ [] else [],
  record t { reported_down = t.down },
)

-- One event, while events are dropped.
unfoldable pub dropped_event : InputEvent → TouchDevice → List TouchPress × TouchDevice
dropped_event (syn_report a) t =
    let (presses, t') = report (resynchronize a t) in (presses, record t' { dropping = false })
dropped_event _ t = ([], t)

-- One event, while none are.
unfoldable pub plain_event : InputEvent → TouchDevice → List TouchPress × TouchDevice
plain_event (abs_x value) t = ([], record t { x = clamp last_x value })
plain_event (abs_y value) t = ([], record t { y = clamp last_y value })
plain_event (btn_touch value) t = ([], record t { down = nonzero value })
plain_event (syn_report a) t = report t
plain_event _ t = ([], t)

unfoldable pub touch_event : InputEvent → TouchDevice → List TouchPress × TouchDevice
touch_event syn_dropped t = ([], record t { dropping = true })
touch_event e t = if t.dropping then dropped_event e t else plain_event e t

-- The loop over the events that are read.
unfoldable pub touch_events : List InputEvent → TouchDevice → List TouchPress × TouchDevice
touch_events [] t = ([], t)
touch_events (e ∷ events) t =
    let (first, t1) = touch_event e t in
    let (rest, t2) = touch_events events t1 in (first ++ rest, t2)
