-- ===== src/Menu/Buttons.antt =====
-- What a key or a controller asks of the menu: key codes to buttons, the shift keys, axes, and the
-- command that pressed buttons give in a view.
pub mod Shift
use nes_deck.Prelude.{
  ℕ, zero, suc, ◌+◌, ◌^◌, bit_and, bit_or, Bool, true, false, not, ◌&&◌, ◌||◌, ◌==◌, ◌!=◌,
  if◌then◌else◌,
}
use nes_deck.Prelude.Integers.{ℤ}
use nes_deck.Joypad.{Axis, btn_trigger, axis_to_pad}

abbrev pub confirm : ℕ
confirm = 1

abbrev pub back : ℕ
back = 2

abbrev pub up : ℕ
up = 4

abbrev pub down : ℕ
down = 8

abbrev pub left : ℕ
left = 16

abbrev pub right : ℕ
right = 32

abbrev pub system_previous : ℕ
system_previous = 64

abbrev pub system_next : ℕ
system_next = 128

abbrev pub settings : ℕ
settings = 256

-- `BTN_THUMB2` and `BTN_TOP`, `BTN_THUMB` and `BTN_TRIGGER`, `BTN_TOP2`, `BTN_PINKIE`, `BTN_BASE`.
unfoldable pub menu_gamepad_key_to_button : ℕ → ℕ
menu_gamepad_key_to_button code =
    if code == 0x122 || code == 0x123
    then confirm
    else if code == 0x121 || code == 0x120
    then back
    else if code == 0x124
    then system_previous
    else if code == 0x125
    then system_next
    else if code == 0x126
    then settings
    else 0

abbrev pub key_tab : ℕ
key_tab = 15

abbrev pub key_left_shift : ℕ
key_left_shift = 42

abbrev pub key_right_shift : ℕ
key_right_shift = 54

-- The codes of enter and of the keypad's, of escape, and of the arrows.
unfoldable pub menu_keyboard_key_to_button : ℕ → Bool → ℕ
menu_keyboard_key_to_button code shift =
    if code == 28 || code == 96
    then confirm
    else if code == 1
    then back
    else if code == 103
    then up
    else if code == 108
    then down
    else if code == 105
    then left
    else if code == 106
    then right
    else if code == key_tab
    then (if shift then system_previous else system_next)
    else 0

unfoldable pub menu_keyboard_key_repeats : ℕ → Bool
menu_keyboard_key_repeats code = code == 103 || code == 108 || code == 105 || code == 106

-- The two shift keys, as `*left_shift` and `*right_shift`.
pub record Shifts : Type 0 where
  pub left_shift : Bool
  pub right_shift : Bool

-- The value of an event is 0 for a release, 1 for a press and 2 for a repeat.
unfoldable pub menu_keyboard_event_to_button : ℕ → ℕ → Shifts → ℕ × Shifts
menu_keyboard_event_to_button code value s =
    if code == key_left_shift
    then (0, record s { left_shift = value != 0 })
    else if code == key_right_shift
    then (0, record s { right_shift = value != 0 })
    else if not (value == 1) && not (value == 2 && menu_keyboard_key_repeats code)
    then (0, s)
    else (menu_keyboard_key_to_button code (s.left_shift || s.right_shift), s)

-- `menu_gamepad_axis_to_button` is word for word `axis_to_pad` of src/joypad_input.cpp.
abbrev pub menu_gamepad_axis_to_button : ℤ → ℤ → ℤ → ℕ → ℕ → ℕ
menu_gamepad_axis_to_button = axis_to_pad

-- The loop over the eight buttons, with the rounds that are left.
unfoldable pub key_loop : ℕ → ℕ → ℕ → ℕ → ℕ
key_loop zero index raw_buttons state = state
key_loop (suc rounds) index raw_buttons state = key_loop rounds (index + 1) raw_buttons (
    if bit_and raw_buttons (2 ^ index) != 0
    then bit_or state (menu_gamepad_key_to_button (btn_trigger + index))
    else state)

unfoldable pub menu_gamepad_state : ℕ → Axis → Axis → ℕ
menu_gamepad_state raw_buttons x y =
    bit_or
      (bit_or (key_loop 8 0 raw_buttons 0)
        (menu_gamepad_axis_to_button x.value x.minimum x.maximum left right))
      (menu_gamepad_axis_to_button y.value y.minimum y.maximum up down)

pub data MenuGamepadCommand : Type 0 where
  none previous next switch_previous switch_next accept leave configure : MenuGamepadCommand

abbrev pub any : ℕ → ℕ → Bool
any pressed mask = bit_and pressed mask != 0

unfoldable pub menu_gamepad_command : ℕ → Bool → Bool → MenuGamepadCommand
menu_gamepad_command pressed modal_view settings_view =
    if (modal_view || settings_view) && any pressed back
    then leave
    else if modal_view
    then none
    else if any pressed settings
    then configure
    else if not settings_view && any pressed system_previous
    then switch_previous
    else if not settings_view && any pressed system_next
    then switch_next
    else if any pressed (bit_or left up)
    then previous
    else if any pressed (bit_or right down)
    then next
    else if any pressed confirm
    then accept
    else none
