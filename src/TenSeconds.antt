-- ===== src/TenSeconds.antt =====
-- src/ten_seconds_deck.cpp, the game of stopping a timer at ten seconds: the timer, what is shown of
-- it, and the touches that move it. Times are nanoseconds of the monotonic clock.
pub mod Touch
pub mod Round
pub mod Shown
use nes_deck.Prelude.{
  ℕ, zero, suc, ◌+◌, ◌-◌, ◌/◌, ◌%◌, ◌^◌, ◌*◌, min, Bool, true, false, not, ◌&&◌, ◌||◌, List, [],
  ◌∷◌, ◌++◌, Option, none, some, ltb, leb, ◌==◌, if◌then◌else◌, Bytes, codes,
}

abbrev pub centisecond_nanoseconds : ℕ
centisecond_nanoseconds = 10000000

abbrev pub redraw_nanoseconds : ℕ
redraw_nanoseconds = 16000000

-- `%02u` of a number below 100.
abbrev pub two_digits : ℕ → Bytes
two_digits n = (b'0' + n / 10) ∷ (b'0' + n % 10) ∷ []

unfoldable pub ten_seconds_format : ℕ → Bytes
ten_seconds_format centiseconds =
    let shown = if ltb 9999 centiseconds then 9999 else centiseconds in
    two_digits (shown / 100) ++ (b'.' ∷ two_digits (shown % 100))

pub data TimerState : Type 0 where
  ready running stopped : TimerState

abbrev pub is_running : TimerState → Bool
is_running running = true
is_running _ = false

-- The line under the digits.
unfoldable pub result_text : TimerState → ℕ → Bytes
result_text stopped displayed =
    if displayed == 1000
    then codes "EXACT"
    else if ltb displayed 1000
    then ten_seconds_format (1000 - displayed) ++ codes " EARLY"
    else ten_seconds_format (displayed - 1000) ++ codes " LATE"
result_text _ displayed = []

unfoldable pub instruction : TimerState → Bytes
instruction ready = codes "TAP OR A TO START"
instruction running = codes "TAP OR A TO STOP"
instruction stopped = codes "TAP OR A FOR ANOTHER TRY"

pub data GameSoundCue : Type 0 where
  sound_start sound_exact sound_miss : GameSoundCue

pub record SoundNote : Type 0 where
  pub frequency : ℕ
  pub duration_ms : ℕ

abbrev note : ℕ → ℕ → SoundNote
note frequency duration_ms = record { frequency = frequency; duration_ms = duration_ms }

unfoldable pub sound_notes : GameSoundCue → List SoundNote
sound_notes sound_start = note 523 28 ∷ note 784 38 ∷ []
sound_notes sound_exact = note 784 35 ∷ note 1047 40 ∷ note 1319 55 ∷ []
sound_notes sound_miss = note 659 35 ∷ note 440 55 ∷ []

-- The variables of the main loop.
pub record Game : Type 0 where
  pub state : TimerState
  pub started_at : ℕ
  pub next_redraw : ℕ
  pub displayed : ℕ
  pub dirty : Bool

abbrev pub new_game : Game
new_game = record { state = ready; started_at = 0; next_redraw = 0; displayed = 0; dirty = true }

-- The centiseconds since a time; none where the clock stands before it.
abbrev pub centiseconds_since : ℕ → ℕ → ℕ
centiseconds_since started_at now = min 9999 ((now - started_at) / centisecond_nanoseconds)

-- `activate_timer`, with the sound that it plays.
unfoldable pub activate_timer : ℕ → Game → GameSoundCue × Game
activate_timer pressed_at g =
    if is_running g.state
    then (let displayed = centiseconds_since g.started_at pressed_at in
        (
          if displayed == 1000 then sound_exact else sound_miss,
          record g { displayed = displayed; state = stopped; dirty = true },
        ))
    else (
      sound_start,
      record {
        state = running;
        started_at = pressed_at;
        next_redraw = pressed_at;
        displayed = 0;
        dirty = true;
      },
    )

-- What a turn of the loop does before it draws.
unfoldable pub redraw : ℕ → Game → Game
redraw now g =
    if is_running g.state && leb g.next_redraw now
    then record g {
      displayed = centiseconds_since g.started_at now;
      next_redraw = now + redraw_nanoseconds;
      dirty = true;
    }
    else g

-- A press of the screen, inside it.
pub record TouchPress : Type 0 where
  pub x : ℕ
  pub y : ℕ

unfoldable pub is_back_press : TouchPress → Bool
is_back_press press = leb 16 press.x && ltb press.x 168 && leb 16 press.y && ltb press.y 80

-- The loop over the presses, each with the time at which it is handled.
unfoldable pub back_requested : List (TouchPress × ℕ) → Bool
back_requested [] = false
back_requested ((press, at) ∷ presses) = is_back_press press || back_requested presses

unfoldable pub press_all : List (TouchPress × ℕ) → Game → List GameSoundCue × Game
press_all [] g = ([], g)
press_all ((press, at) ∷ presses) g =
    let (cue, g1) = activate_timer at g in let (cues, g2) = press_all presses g1 in (cue ∷ cues, g2)

-- What a turn of the loop does with its input: `none` where the game is left. A controller is given
-- by the time of its button A.
unfoldable pub take_input :
    Option ℕ → List (TouchPress × ℕ) → Game → Option (List GameSoundCue × Game)
take_input (some at) presses g =
    if back_requested presses
    then none
    else (let (cue, g') = activate_timer at g in some (cue ∷ [], g'))
take_input none presses g = if back_requested presses then none else some (press_all presses g)

-- A whole turn; the timer is drawn where it is dirty.
unfoldable pub loop_turn :
    ℕ → Option ℕ → List (TouchPress × ℕ) → Game → Option (List GameSoundCue × Game)
loop_turn now controller presses g =
    take_input controller presses (record (redraw now g) { dirty = false })
