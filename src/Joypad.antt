-- ===== src/Joypad.antt =====
-- src/joypad_input.cpp, built without RETRO_DECK_ZX: the button mappings, the keyboard, what the
-- emulators ask for and the slots of the players. An `int` of an axis is an integer; none of the sums
-- leaves the range from the axis's minimum to its maximum. The loops that read directories and devices are left out, and so is the lock, under which each update
-- is one step.
pub mod Axes
pub mod Keys
pub mod Names
pub mod Slots
use nes_deck.Prelude.Integers.{ℤ, pos, pos_part, leb_ℤ, ◌+ℤ◌, ◌-ℤ◌}
use nes_deck.Prelude.{
  ℕ, zero, suc, ◌+◌, ◌-◌, ◌*◌, ◌/◌, ◌^◌, bit_and, bit_or, Bool, true, false, not, ◌&&◌, ◌||◌, List,
  [], ◌∷◌, ltb, leb, within, ◌==◌, ◌!=◌, if◌then◌else◌, get_or, set, Bytes, equal, codes,
}

abbrev pad_a : ℕ
pad_a = 1

abbrev pad_b : ℕ
pad_b = 2

abbrev pad_select : ℕ
pad_select = 4

abbrev pad_start : ℕ
pad_start = 8

abbrev pub pad_up : ℕ
pad_up = 0x10

abbrev pub pad_down : ℕ
pad_down = 0x20

abbrev pub pad_left : ℕ
pad_left = 0x40

abbrev pub pad_right : ℕ
pad_right = 0x80

abbrev pad_l : ℕ
pad_l = 0x100

abbrev pad_r : ℕ
pad_r = 0x200

unfoldable pub keycode_to_pad : ℕ → ℕ
keycode_to_pad keycode =
    if keycode == 0x67 || keycode == 0x11
    then pad_up
    else if keycode == 0x6c || keycode == 0x1f
    then pad_down
    else if keycode == 0x69 || keycode == 0x1e
    then pad_left
    else if keycode == 0x6a || keycode == 0x20
    then pad_right
    else if keycode == 0x39 || keycode == 0x2c || keycode == 0x24
    then pad_a
    else if keycode == 0x2a || keycode == 0x36 || keycode == 0x2d || keycode == 0x25
    then pad_b
    else if keycode == 0x1c
    then pad_start
    else if keycode == 0x1d || keycode == 0x61
    then pad_select
    else 0

-- `BTN_TRIGGER` to `BTN_BASE2` of the kernel's input codes.
abbrev pub btn_trigger : ℕ
btn_trigger = 0x120

unfoldable pub gamepad_key_to_pad : ℕ → ℕ
gamepad_key_to_pad code =
    if code == 0x122 || code == 0x123
    then pad_a
    else if code == 0x121 || code == 0x120
    then pad_b
    else if code == 0x126
    then pad_select
    else if code == 0x127
    then pad_start
    else if code == 0x124
    then pad_l
    else if code == 0x125
    then pad_r
    else 0

unfoldable pub axis_to_pad : ℤ → ℤ → ℤ → ℕ → ℕ → ℕ
axis_to_pad value minimum maximum negative positive =
    if leb_ℤ maximum minimum
    then 0
    else let span = pos_part (maximum -ℤ minimum) in
      let low = minimum +ℤ pos (span / 3) in
      let high = maximum -ℤ pos (span / 3) in
      if leb_ℤ value low then negative else if leb_ℤ high value then positive else 0

-- What `gamepad_state` reads of a `GamepadDevice`.
pub record Axis : Type 0 where
  pub value : ℤ
  pub minimum : ℤ
  pub maximum : ℤ

-- The loop over the eight buttons, with the rounds that are left.
unfoldable pub buttons_loop : ℕ → ℕ → ℕ → ℕ → ℕ
unfolding gamepad_key_to_pad
buttons_loop zero index raw_buttons state = state
buttons_loop (suc rounds) index raw_buttons state = buttons_loop rounds (index + 1) raw_buttons (
    if bit_and raw_buttons (2 ^ index) != 0
    then bit_or state (gamepad_key_to_pad (btn_trigger + index))
    else state)

unfoldable pub gamepad_state : ℕ → Axis → Axis → ℕ
unfolding buttons_loop axis_to_pad
gamepad_state raw_buttons x y =
    bit_or
      (bit_or (buttons_loop 8 0 raw_buttons 0)
        (axis_to_pad x.value x.minimum x.maximum pad_left pad_right))
      (axis_to_pad y.value y.minimum y.maximum pad_up pad_down)

-- `keyboard_state` and `keyboard_key_state`.
pub record Keyboard : Type 0 where
  pub state : ℕ
  pub keys : List Bool

unfoldable pub update_keyboard_key : ℕ → Bool → Keyboard → Keyboard
unfolding keycode_to_pad
update_keyboard_key keycode pressed k =
    let button = keycode_to_pad keycode in
    record {
      state =
          if button == 0
          then k.state
          else if pressed
          then bit_or k.state button
          else bit_and k.state (2 ^ 32 - 1 - button);
      keys = set k.keys keycode pressed;
    }

-- The loop of `drain_keyboard` over the bytes of one read.
unfoldable pub drain_bytes : Bytes → Keyboard → Keyboard
unfolding update_keyboard_key
drain_bytes [] k = k
drain_bytes (b ∷ bs) k =
    drain_bytes bs (update_keyboard_key (bit_and b 0x7f) (not (bit_and b 0x80 != 0)) k)

unfoldable pub get_keyboard_input : ℕ → Keyboard → ℕ
get_keyboard_input keycode k =
    if leb 128 keycode then 0 else if get_or k.keys keycode false then 1 else 0

abbrev pub all_digits : Bytes → Bool
all_digits [] = true
all_digits (c ∷ cs) = within b'0' b'9' c && all_digits cs

-- The test of the names in /dev/input.
unfoldable pub is_event_name : Bytes → Bool
is_event_name (e ∷ v ∷ e' ∷ n ∷ t ∷ c ∷ cs) =
    equal (e ∷ v ∷ e' ∷ n ∷ t ∷ []) (codes "event") && all_digits (c ∷ cs)
is_event_name name = false

-- `std::string`'s operator<, on the bytes.
unfoldable pub less : Bytes → Bytes → Bool
less [] [] = false
less [] (d ∷ ds) = true
less (c ∷ cs) [] = false
less (c ∷ cs) (d ∷ ds) = ltb c d || (c == d && less cs ds)

-- What `candidate_order` reads of a `GamepadCandidate`.
pub record Candidate : Type 0 where
  pub path : Bytes
  pub physical_path : Bytes

unfoldable pub candidate_order : Candidate → Candidate → Bool
unfolding less
candidate_order left right =
    if not (equal left.physical_path right.physical_path)
    then less left.physical_path right.physical_path
    else less left.path right.path
