-- ===== src/Tests/TenSeconds.antt =====
-- src/ten_seconds_deck.cpp.
use nes_deck.Prelude.Integers.{negsuc, pos}
use nes_deck.Prelude.{◌≡◌, refl, arith, true, false, List, [], ◌∷◌, none, some, All, codes}
use nes_deck.TenSeconds.{new_game, ten_seconds_format, result_text, stopped}
use nes_deck.TenSeconds.Round.{Round, loop_turn-Round}
use nes_deck.TenSeconds.Touch.{
  InputEvent, syn_dropped, syn_report, abs_x, abs_y, btn_touch, TouchDevice, touch_events,
  touch_event, plain_event, dropped_event, report, resynchronize, clamp,
}
use nes_deck.TenSeconds.Touch.Place.{OnScreen, PressOnScreen}
use nes_deck.TenSeconds.Touch.Edges.{reports, touches_begun, touch_events-edges}

result_run : result_text stopped 1234 ≡ codes "02.34 LATE"
unfolding result_text ten_seconds_format
result_run = refl

-- Ten seconds and four milliseconds.
loop_turn-Round_example : Round 1000 10004001000 10005000000 (2000 ∷ 20002000 ∷ []) new_game
loop_turn-Round_example =
    loop_turn-Round 1000 10004001000 10005000000 (2000 ∷ 20002000 ∷ []) new_game refl

abbrev idle_screen : TouchDevice
idle_screen = record { x = 0; y = 0; down = false; reported_down = false; dropping = false }

-- A touch at the edge, an overrun in which the finger stays, and a release.
abbrev screen_events : List InputEvent
screen_events =
    abs_x (pos 5000)
    ∷ abs_y (negsuc 2)
    ∷ btn_touch (pos 1)
    ∷ syn_report (record { answered_x = none; answered_y = none; answered_down = none })
    ∷ syn_dropped
    ∷ btn_touch (pos 0)
    ∷ syn_report
        (record { answered_x = some (pos 7); answered_y = none; answered_down = some true })
    ∷ btn_touch (pos 0)
    ∷ syn_report (record { answered_x = none; answered_y = none; answered_down = none })
    ∷ []

screen_run : (touch_events screen_events idle_screen).0 ≡ record { x = 1279; y = 0 } ∷ []
unfolding touch_events touch_event plain_event dropped_event report resynchronize clamp
screen_run = refl

touch_events-edges_example :
    ((touch_events screen_events idle_screen).0
      ≡ touches_begun false (reports idle_screen [] screen_events))
    × All PressOnScreen (touch_events screen_events idle_screen).0
    × OnScreen (touch_events screen_events idle_screen).1
touch_events-edges_example =
    touch_events-edges screen_events idle_screen
      (record { in_width = omega arith; in_height = omega arith })
