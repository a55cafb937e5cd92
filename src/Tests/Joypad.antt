-- ===== src/Tests/Joypad.antt =====
-- src/joypad_input.cpp, and the brightness numbers of src/menu_state.cpp.
use nes_deck.Prelude.{
  ◌+◌, ◌≡◌, refl, arith, true, false, [], ◌∷◌, Bytes, codes, equal, bit_and, replicate, get_or,
  if◌then◌else◌,
}
use nes_deck.Joypad.{
  Axis, Keyboard, Candidate, axis_to_pad, gamepad_state, get_keyboard_input, drain_bytes,
  is_event_name, candidate_order, buttons_loop, gamepad_key_to_pad, keycode_to_pad,
  update_keyboard_key, less, pad_left, pad_right, pad_up, pad_down,
}
use nes_deck.Joypad.Axes.{pressed_by, gamepad_state-directions}
use nes_deck.Prelude.Integers.{pos, negsuc, ◌+ℤ◌, ◌-ℤ◌}
use nes_deck.Joypad.Keys.{down, get_keyboard_input-drain_bytes}
use nes_deck.MenuState.Brightness.{
  brightness_raw_value, observed_percent, refuses_brightness, observed_percent-brightness_raw_value,
}
use nes_deck.Prelude.{some, none, List}
use nes_deck.Joypad.Slots.{
  Slot, OpenCandidate, assign_slots, attach_candidate, attach_first, attach_wanted, reconnect, fill,
  reuse, reuse_slot, sort_candidates, insert_candidate,
}
use nes_deck.Joypad.Slots.Scan.{Assigns, assign_slots-Assigns}

abbrev right_axis : Axis
right_axis = record { value = pos 20000; minimum = negsuc 32766; maximum = pos 32767 }

abbrev middle_axis : Axis
middle_axis = record { value = negsuc 0; minimum = negsuc 32766; maximum = pos 32767 }

-- A and Start, to the right.
buttons_run : gamepad_state 0x84 right_axis middle_axis ≡ 0x89
unfolding gamepad_state buttons_loop gamepad_key_to_pad axis_to_pad ◌+ℤ◌ ◌-ℤ◌
buttons_run = refl

gamepad_state-directions_example :
    (bit_and (gamepad_state 0x84 right_axis middle_axis) (pad_left + pad_right)
      ≡ pressed_by right_axis pad_left pad_right)
    × (bit_and (gamepad_state 0x84 right_axis middle_axis) (pad_up + pad_down)
        ≡ pressed_by middle_axis pad_up pad_down)
gamepad_state-directions_example =
    gamepad_state-directions 0x84 right_axis middle_axis (omega arith)

abbrev idle_keys : Keyboard
idle_keys = record { state = 0; keys = replicate 128 false }

-- W down, Space down, W up.
abbrev typed : Bytes
typed = 0x11 ∷ 0x39 ∷ 0x91 ∷ []

typed_run : (drain_bytes typed idle_keys).state ≡ 1
unfolding drain_bytes update_keyboard_key keycode_to_pad
typed_run = refl

get_keyboard_input-drain_bytes_example :
    get_keyboard_input 0x39 (drain_bytes typed idle_keys)
    ≡ (if down 0x39 typed (get_or (replicate 128 false) 0x39 false) then 1 else 0)
get_keyboard_input-drain_bytes_example =
    get_keyboard_input-drain_bytes 0x39 typed idle_keys (omega arith) refl
      (omega arith, (omega arith, (omega arith, tt)))

name_run : is_event_name (codes "event12") ≡ true
unfolding is_event_name equal
name_run = refl

abbrev first_port : Candidate
first_port = record { path = codes "/dev/input/event3"; physical_path = codes "usb-1" }

abbrev second_port : Candidate
second_port = record { path = codes "/dev/input/event2"; physical_path = codes "usb-2" }

order_run : candidate_order first_port second_port ≡ true
unfolding candidate_order less equal
order_run = refl

step_taken : refuses_brightness 255 70 ≡ false
unfolding refuses_brightness
step_taken = refl

observed_percent-brightness_raw_value_example :
    observed_percent (brightness_raw_value 70 255) 255 ≡ 70
observed_percent-brightness_raw_value_example =
    observed_percent-brightness_raw_value 7 255 (omega arith) (omega arith) (omega arith)
      (omega arith)

-- The first player's controller was at the second port and is gone; the second player had none.
abbrev gone_slots : List Slot
gone_slots =
    record { fd = none; path = []; physical_path = codes "usb-2" }
    ∷ record { fd = none; path = []; physical_path = [] }
    ∷ []

abbrev found_candidates : List OpenCandidate
found_candidates =
    record {
      candidate_fd = some 8;
      candidate = record { path = codes "/dev/input/event4"; physical_path = codes "usb-2" };
    }
    ∷ record {
      candidate_fd = some 7;
      candidate = record { path = codes "/dev/input/event3"; physical_path = codes "usb-1" };
    }
    ∷ record {
      candidate_fd = some 9;
      candidate = record { path = codes "/dev/input/event5"; physical_path = codes "usb-3" };
    }
    ∷ []

slots_run : assign_slots gone_slots found_candidates ≡ (
  record { fd = some 8; path = codes "/dev/input/event4"; physical_path = codes "usb-2" }
      ∷ record { fd = some 7; path = codes "/dev/input/event3"; physical_path = codes "usb-1" }
      ∷ [],
  record {
    candidate_fd = none;
    candidate = record { path = codes "/dev/input/event3"; physical_path = codes "usb-1" };
  }
      ∷ record {
        candidate_fd = none;
        candidate = record { path = codes "/dev/input/event4"; physical_path = codes "usb-2" };
      }
      ∷ record {
        candidate_fd = some 9;
        candidate = record { path = codes "/dev/input/event5"; physical_path = codes "usb-3" };
      }
      ∷ [],
)
unfolding assign_slots attach_candidate attach_first attach_wanted reconnect fill reuse reuse_slot
    sort_candidates insert_candidate candidate_order less equal
slots_run = refl

assign_slots-Assigns_example :
    Assigns gone_slots found_candidates (assign_slots gone_slots found_candidates)
assign_slots-Assigns_example = assign_slots-Assigns gone_slots found_candidates
