-- ===== src/TenSeconds/Round.antt =====
-- One round of the game: a start, turns of the loop without input, and a stop.
use nes_deck.Prelude.{
  ℕ, ◌-◌, ◌/◌, ◌≤◌, ◌<◌, ◌≡◌, ◌↔◌, refl, sym, subst, ◌∙◌, min, arith, false, ◌&&◌, Bool-cases, inl,
  inr, List, [], ◌∷◌, Option, none, some, leb, ◌==◌, if◌then◌else◌,
}
use nes_deck.TenSeconds.{
  running, stopped, is_running, GameSoundCue, sound_start, sound_exact, sound_miss, Game,
  centiseconds_since, activate_timer, redraw, back_requested, press_all, take_input, loop_turn,
}

-- Turns without input, at some times.
unfoldable pub idle : List ℕ → Game → Option Game
idle [] g = some g
idle (now ∷ times) g = elim (loop_turn now none [] g) [
  | none ↦ none
  | some (cues, g') ↦ idle times g'
]

-- A timer that was started at a time and runs.
record RunsFrom (start : ℕ) (g : Game) : Type 0 where
  runs : g.state ≡ running
  since : g.started_at ≡ start

redraw-RunsFrom :
    (start now : ℕ) (g : Game)
    → RunsFrom start g
    → RunsFrom start (record (redraw now g) { dirty = false })
unfolding redraw
redraw-RunsFrom start now g r = elim (Bool-cases (is_running g.state && leb g.next_redraw now)) [
  | inl e ↦ rw e (record { runs = r.runs; since = r.since })
  | inr e ↦ rw e (record { runs = r.runs; since = r.since })
]

idle-step :
    (now : ℕ) (times : List ℕ) (g : Game)
    → idle (now ∷ times) g ≡ idle times (record (redraw now g) { dirty = false })
unfolding idle loop_turn take_input back_requested press_all
idle-step now times g = refl

idle-RunsFrom :
    (start : ℕ) (times : List ℕ) (g : Game)
    → RunsFrom start g
    → (g' : Game) × (idle times g ≡ some g') × RunsFrom start g'
unfolding idle
idle-RunsFrom start [] g r = (g, refl, r)
idle-RunsFrom start (now ∷ times) g r =
    let (g', e, r') = idle-RunsFrom start times _ (redraw-RunsFrom start now g r) in
    (g', idle-step now times g ∙ e, r')

activate-start :
    (at : ℕ) (g : Game)
    → is_running g.state ≡ false
    → ((activate_timer at g).0 ≡ sound_start) × RunsFrom at (activate_timer at g).1
unfolding activate_timer
activate-start at g e = rw e (refl, record { runs = refl; since = refl })

activate-stop :
    (start at : ℕ) (g : Game)
    → RunsFrom start g
    → ((activate_timer at g).1.state ≡ stopped)
      × ((activate_timer at g).1.displayed ≡ centiseconds_since start at)
      × ((activate_timer at g).0
          ≡ (if centiseconds_since start at == 1000 then sound_exact else sound_miss))
unfolding activate_timer
activate-stop start at g r = rw (r.runs, r.since) (refl, refl, refl)

loop_turn-controller :
    (now at : ℕ) (g : Game)
    → let pressed = activate_timer at (record (redraw now g) { dirty = false }) in
      loop_turn now (some at) [] g ≡ some (pressed.0 ∷ [], pressed.1)
unfolding loop_turn take_input back_requested
loop_turn-controller now at g = refl

-- The sound at the end of a round that has lasted some nanoseconds.
abbrev final_cue : ℕ → ℕ → GameSoundCue
final_cue start stop = if centiseconds_since start stop == 1000 then sound_exact else sound_miss

final_cue_exact :
    (start stop : ℕ)
    → 10000000000 ≤ stop - start
    → stop - start < 10010000000
    → final_cue start stop ≡ sound_exact
final_cue_exact start stop low high = ground (arith, low, high)

final_cue_iff :
    (start stop : ℕ)
    → (final_cue start stop ≡ sound_exact)
      ↔ ((10000000000 ≤ stop - start) × (stop - start < 10010000000))
final_cue_iff start stop = (
  λ e. elim (Bool-cases (centiseconds_since start stop == 1000)) [
    | inl hit ↦ ground (arith, hit)
    | inr miss ↦ absurd (ground (arith, miss, e))
  ],
  λ (low, high). final_cue_exact start stop low high,
)

-- What a round gives that is started at one time and stopped at another.
pub record Round (start stop now : ℕ) (times : List ℕ) (g : Game) : Type 0 where
  pub begun : (activate_timer start g).0 ≡ sound_start
  pub waiting : Game
  pub waits : idle times (activate_timer start g).1 ≡ some waiting
  pub cue : GameSoundCue
  pub final : Game
  pub ends : loop_turn now (some stop) [] waiting ≡ some (cue ∷ [], final)
  pub stands : final.state ≡ stopped
  pub shows : final.displayed ≡ min 9999 ((stop - start) / 10000000)
  pub wins : (cue ≡ sound_exact) ↔ ((10000000000 ≤ stop - start) × (stop - start < 10010000000))

-- A press that finds the timer at rest starts it with its sound. After any turns of the loop without
-- input, a press of a controller stops it: it shows the whole centiseconds between the two presses,
-- at most 99.99 seconds, whenever it was drawn between, and the sound is that of an exact stop
-- exactly if at least 10.00 and less than 10.01 seconds have passed.
pub loop_turn-Round :
    (start stop now : ℕ) (times : List ℕ) (g : Game)
    → is_running g.state ≡ false
    → Round start stop now times g
loop_turn-Round start stop now times g rests =
    let (begun, runs) = activate-start start g rests in
    let (waiting, waits, still) = idle-RunsFrom start times (activate_timer start g).1 runs in
    let (stands, shows, cue) =
      activate-stop start stop _ (redraw-RunsFrom start now waiting still) in
    record {
      begun = begun;
      waiting = waiting;
      waits = waits;
      cue = (activate_timer stop (record (redraw now waiting) { dirty = false })).0;
      final = (activate_timer stop (record (redraw now waiting) { dirty = false })).1;
      ends = loop_turn-controller now stop waiting;
      stands = stands;
      shows = shows;
      wins =
          subst
            (λ c. (c ≡ sound_exact) ↔ ((10000000000 ≤ stop - start) × (stop - start < 10010000000)))
            (sym cue) (final_cue_iff start stop);
    }
