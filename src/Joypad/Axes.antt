-- ===== src/Joypad/Axes.antt =====
-- Which directions `gamepad_state` reports.
use nes_deck.Prelude.{
  ℕ, ◌+◌, ◌/◌, ◌<◌, ◌≤◌, ◌≡◌, refl, sym, bit_and, bit_or, arith, ◌⊎◌, inl, inr, Bool, true, false,
  ◌&&◌, Bool-cases, ◌∙◌, leb, ◌==◌, if◌then◌else◌,
}
use nes_deck.Prelude.Integers.{pos, pos_part, leb_ℤ, ◌+ℤ◌, ◌-ℤ◌, +ℤ_parts, -ℤ_parts, -ℤ_positive}
use nes_deck.Prelude.Bits.{all_below, all_below_sound}
use nes_deck.Joypad.{
  Axis, axis_to_pad, buttons_loop, gamepad_key_to_pad, gamepad_state, pad_up, pad_down, pad_left,
  pad_right,
}

-- Three times the value is at most the maximum and twice the minimum: the value is in the lowest third.
abbrev in_low_third : Axis → Bool
in_low_third a = leb_ℤ (a.value +ℤ a.value +ℤ a.value) (a.maximum +ℤ a.minimum +ℤ a.minimum)

-- The same from the other end.
abbrev in_high_third : Axis → Bool
in_high_third a = leb_ℤ (a.maximum +ℤ a.maximum +ℤ a.minimum) (a.value +ℤ a.value +ℤ a.value)

-- What the stick presses on an axis: the direction of the outer third in which it stands, nothing in
-- the middle and nothing on an axis without a range.
unfoldable pub pressed_by : Axis → ℕ → ℕ → ℕ
pressed_by a negative positive =
    if leb_ℤ a.maximum a.minimum
    then 0
    else if in_low_third a
    then negative
    else if in_high_third a
    then positive
    else 0

leb_cong : (a b c d : ℕ) → (a ≤ b → c ≤ d) → (c ≤ d → a ≤ b) → leb a b ≡ leb c d
leb_cong a b c d h k = elim (Bool-cases (leb a b)) [
  | inl e ↦ let le : c ≤ d = h (ground (arith, e)) in ground (arith, e, le)
  | inr e ↦ elim (Bool-cases (leb c d)) [
    | inl f ↦ let le : a ≤ b = k (ground (arith, f)) in ground (arith, e, le)
    | inr f ↦ e ∙ sym f
  ]
]

module _ (a : Axis) (range : leb_ℤ a.maximum a.minimum ≡ false) where
  abbrev span : ℕ
  span = pos_part (a.maximum -ℤ a.minimum)

  low_third : leb_ℤ a.value (a.minimum +ℤ pos (span / 3)) ≡ in_low_third a
  low_third =
      let positive = -ℤ_positive a.maximum a.minimum range in
      leb_cong _ _ _ _ (λ h. omega (arith, h, positive, +ℤ_parts, -ℤ_parts))
        (λ h. omega (arith, h, positive, +ℤ_parts, -ℤ_parts))

  high_third : leb_ℤ (a.maximum -ℤ pos (span / 3)) a.value ≡ in_high_third a
  high_third =
      let positive = -ℤ_positive a.maximum a.minimum range in
      leb_cong _ _ _ _ (λ h. omega (arith, h, positive, +ℤ_parts, -ℤ_parts))
        (λ h. omega (arith, h, positive, +ℤ_parts, -ℤ_parts))

axis_to_pad-pressed_by :
    (a : Axis) (negative positive : ℕ)
    → axis_to_pad a.value a.minimum a.maximum negative positive ≡ pressed_by a negative positive
unfolding axis_to_pad pressed_by
axis_to_pad-pressed_by a negative positive = elim (Bool-cases (leb_ℤ a.maximum a.minimum)) [
  | inl e ↦ simp e refl
  | inr e ↦ simp (low_third a e, high_third a e) refl
]

pressed_by-cases :
    (a : Axis) (negative positive : ℕ)
    → (pressed_by a negative positive ≡ 0)
      ⊎ ((pressed_by a negative positive ≡ negative) ⊎ (pressed_by a negative positive ≡ positive))
unfolding pressed_by
pressed_by-cases a negative positive =
    three (leb_ℤ a.maximum a.minimum) (in_low_third a) (in_high_third a)
  where
    three :
        (flat low high : Bool)
        → let p = if flat then 0 else if low then negative else if high then positive else 0 in
          (p ≡ 0) ⊎ ((p ≡ negative) ⊎ (p ≡ positive))
    three true low high = inl refl
    three false true high = inr (inl refl)
    three false false true = inr (inr refl)
    three false false false = inl refl

-- The directions of a state are those of `x` and `y`.
abbrev directions : ℕ → ℕ → ℕ → Bool
directions state x y =
    bit_and state (pad_left + pad_right) == x && bit_and state (pad_up + pad_down) == y

unfoldable directions_with : ℕ → ℕ → ℕ → Bool
directions_with x y raw = directions (bit_or (bit_or (buttons_loop 8 0 raw 0) x) y) x y

abbrev all_axes : ℕ → Bool
all_axes raw =
    (directions_with 0 0 raw && directions_with 0 pad_up raw && directions_with 0 pad_down raw)
    && (directions_with pad_left 0 raw
        && directions_with pad_left pad_up raw
        && directions_with pad_left pad_down raw)
    && (directions_with pad_right 0 raw
        && directions_with pad_right pad_up raw
        && directions_with pad_right pad_down raw)

axes_table : all_below 256 all_axes ≡ true
unfolding all_below directions_with buttons_loop gamepad_key_to_pad
axes_table = refl

directions_sound :
    (state x y : ℕ)
    → directions state x y ≡ true
    → (bit_and state (pad_left + pad_right) ≡ x) × (bit_and state (pad_up + pad_down) ≡ y)
directions_sound state x y h = ground (arith, h)

-- The row of the table for what the two axes give.
pick :
    (raw x y : ℕ)
    → all_axes raw ≡ true
    → (x ≡ 0) ⊎ ((x ≡ pad_left) ⊎ (x ≡ pad_right))
    → (y ≡ 0) ⊎ ((y ≡ pad_up) ⊎ (y ≡ pad_down))
    → directions_with x y raw ≡ true
pick raw x y table (inl e) (inl e') = rw (e, e') (ground (arith, table))
pick raw x y table (inl e) (inr (inl e')) = rw (e, e') (ground (arith, table))
pick raw x y table (inl e) (inr (inr e')) = rw (e, e') (ground (arith, table))
pick raw x y table (inr (inl e)) (inl e') = rw (e, e') (ground (arith, table))
pick raw x y table (inr (inl e)) (inr (inl e')) = rw (e, e') (ground (arith, table))
pick raw x y table (inr (inl e)) (inr (inr e')) = rw (e, e') (ground (arith, table))
pick raw x y table (inr (inr e)) (inl e') = rw (e, e') (ground (arith, table))
pick raw x y table (inr (inr e)) (inr (inl e')) = rw (e, e') (ground (arith, table))
pick raw x y table (inr (inr e)) (inr (inr e')) = rw (e, e') (ground (arith, table))

gamepad_state-with :
    (raw : ℕ) (x y : Axis)
    → directions_with (pressed_by x pad_left pad_right) (pressed_by y pad_up pad_down) raw ≡ true
    → directions
        (gamepad_state raw x y)
        (pressed_by x pad_left pad_right)
        (pressed_by y pad_up pad_down)
      ≡ true
unfolding gamepad_state directions_with
gamepad_state-with raw x y h =
    simp (axis_to_pad-pressed_by x pad_left pad_right, axis_to_pad-pressed_by y pad_up pad_down) h

-- Whatever the eight buttons report, the directions in the state of a controller are those that its
-- stick presses: of left and right at most the one in whose outer third of the range the value of the
-- horizontal axis stands, and none if the range is empty; and so for up and down.
pub gamepad_state-directions :
    (raw_buttons : ℕ) (x y : Axis)
    → raw_buttons < 256
    → (bit_and (gamepad_state raw_buttons x y) (pad_left + pad_right)
        ≡ pressed_by x pad_left pad_right)
      × (bit_and (gamepad_state raw_buttons x y) (pad_up + pad_down) ≡ pressed_by y pad_up pad_down)
gamepad_state-directions raw_buttons x y small =
    directions_sound (gamepad_state raw_buttons x y) _ _ (
      gamepad_state-with raw_buttons x y (
        pick raw_buttons _ _ (all_below_sound 256 all_axes raw_buttons axes_table small)
          (pressed_by-cases x pad_left pad_right) (pressed_by-cases y pad_up pad_down)))
