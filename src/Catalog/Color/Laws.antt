-- ===== src/Catalog/Color/Laws.antt =====
-- Colours read back as they are printed, pixels keep the high bits, the palette test is membership.
use nes_deck.Prelude.{
  ℕ, zero, suc, ◌+◌, ◌-◌, ◌*◌, ◌/◌, ◌%◌, ◌^◌, ◌≤◌, ◌<◌, ◌≡◌, refl, ap, ◌∙◌, ◌↔◌, inl, inr, arith,
  bit_and, bit_or, true, Bool-cases, [], ◌∷◌, some, ltb, ◌==◌, if◌then◌else◌, Bytes,
}
use nes_deck.Prelude.Bits.{all_below, all_below_sound, bit_and-mask, bit_or-shifted}
use nes_deck.Catalog.Color.{
  RgbColor, rgb, rgb565, pixel, xterm_color, same_color, palette_loop, is_xterm_color, nibble,
  color_digits, color_of, parse_color,
}

same_color_iff : (a b : RgbColor) → (same_color a b ≡ true) ↔ (a ≡ b)
unfolding same_color
same_color_iff a b = ground arith

palette_loop-true :
    (rounds index : ℕ) (color : RgbColor)
    → palette_loop rounds index color ≡ true
    → (i : ℕ) × (index ≤ i) × (i < index + rounds) × (xterm_color i ≡ color)
unfolding palette_loop
palette_loop-true zero index color h = cc
palette_loop-true (suc rounds) index color h =
    elim (Bool-cases (same_color (xterm_color index) color)) [
      | inl same ↦
          (index, omega arith, omega arith, (same_color_iff (xterm_color index) color).0 same)
      | inr other ↦
          let (i, lo, hi, e) = palette_loop-true rounds (index + 1) color (ground (arith, other)) in
          (i, omega arith, omega arith, e)
    ]

palette_loop_complete :
    (rounds index i : ℕ)
    → index ≤ i
    → i < index + rounds
    → palette_loop rounds index (xterm_color i) ≡ true
unfolding palette_loop
palette_loop_complete zero index i lo hi = absurd (omega arith)
palette_loop_complete (suc rounds) index i lo hi = elim (Bool-cases (index == i)) [
  | inl here ↦
      let e : index ≡ i = ground arith in
      rw e (rw ((same_color_iff (xterm_color i) (xterm_color i)).1 refl))
  | inr later ↦
      ground (arith, palette_loop_complete rounds (index + 1) i (ground arith) (omega arith))
]

-- The test accepts exactly the colours of the 256 indices.
pub is_xterm_color_iff :
    (color : RgbColor)
    → (is_xterm_color color ≡ true) ↔ ((i : ℕ) × (i < 256) × (xterm_color i ≡ color))
unfolding is_xterm_color
is_xterm_color_iff color = (
  λ h. let (i, lo, hi, e) = palette_loop-true 256 0 color h in (i, omega arith, e),
  λ (i, hi, e). rw (← e) (palette_loop_complete 256 0 i (omega arith) (omega arith)),
)

-- A lower-case hexadecimal digit.
pub hex_digit : ℕ → ℕ
hex_digit n = if ltb n 10 then b'0' + n else b'a' + (n - 10)

-- The form `#RRGGBB` of a colour.
pub print_color : RgbColor → Bytes
print_color c =
    b'#'
    ∷ hex_digit (c.red / 16)
    ∷ hex_digit (c.red % 16)
    ∷ hex_digit (c.green / 16)
    ∷ hex_digit (c.green % 16)
    ∷ hex_digit (c.blue / 16)
    ∷ hex_digit (c.blue % 16)
    ∷ []

pub record IsColor (c : RgbColor) : Type 0 where
  pub red_byte : c.red < 256
  pub green_byte : c.green < 256
  pub blue_byte : c.blue < 256

nibble-hex_digit : (n : ℕ) → n < 16 → nibble (hex_digit n) ≡ some n
unfolding nibble hex_digit
nibble-hex_digit n h = ground arith

color_digits_cons :
    (value c n : ℕ) (rest : Bytes)
    → nibble c ≡ some n
    → color_digits value (c ∷ rest) ≡ color_digits (bit_or (value * 2 ^ 4 % 2 ^ 32) n) rest
unfolding color_digits
color_digits_cons value c n rest e = ground (arith, e)

color_digits-hex_digit :
    (value n : ℕ) (rest : Bytes)
    → value < 2 ^ 28
    → n < 16
    → color_digits value (hex_digit n ∷ rest) ≡ color_digits (value * 16 + n) rest
color_digits-hex_digit value n rest small h =
    let whole : value * 2 ^ 4 % 2 ^ 32 ≡ value * 2 ^ 4 = omega arith in
    color_digits_cons value (hex_digit n) n rest (nibble-hex_digit n h)
    ∙ rw (whole, bit_or-shifted 4 value n h)

color_digits-first :
    (n : ℕ) (rest : Bytes) → n < 16 → color_digits 0 (hex_digit n ∷ rest) ≡ color_digits n rest
color_digits-first n rest h =
    let e : 0 * 16 + n ≡ n = omega arith in color_digits-hex_digit 0 n rest (omega arith) h ∙ rw e

color_digits-nil : (value : ℕ) → color_digits value [] ≡ some value
unfolding color_digits
color_digits-nil value = refl

color_of-bytes :
    (r g b : ℕ) → r < 256 → g < 256 → b < 256 → color_of ((r * 256 + g) * 256 + b) ≡ rgb r g b
unfolding color_of
color_of-bytes r g b hr hg hb =
    let v = (r * 256 + g) * 256 + b in
    rw (bit_and-mask 8 (v / 2 ^ 16), bit_and-mask 8 (v / 2 ^ 8), bit_and-mask 8 v) (ground arith)

-- Six digits spell three bytes.
abbrev six : ℕ → ℕ → ℕ → ℕ
six r g b = ((((r / 16 * 16 + r % 16) * 16 + g / 16) * 16 + g % 16) * 16 + b / 16) * 16 + b % 16

color_digits-six :
    (r g b : ℕ)
    → r < 256
    → g < 256
    → b < 256
    → color_digits 0 (
        hex_digit (r / 16)
        ∷ hex_digit (r % 16)
        ∷ hex_digit (g / 16)
        ∷ hex_digit (g % 16)
        ∷ hex_digit (b / 16)
        ∷ hex_digit (b % 16)
        ∷ [])
      ≡ some ((r * 256 + g) * 256 + b)
color_digits-six r g b hr hg hb =
    color_digits-first (r / 16) _ (omega arith)
    ∙ color_digits-hex_digit (r / 16) (r % 16) _ (omega arith) (omega arith)
    ∙ color_digits-hex_digit (r / 16 * 16 + r % 16) (g / 16) _ (omega arith) (omega arith)
    ∙ color_digits-hex_digit ((r / 16 * 16 + r % 16) * 16 + g / 16) (g % 16) _ (omega arith)
        (omega arith)
    ∙ color_digits-hex_digit (((r / 16 * 16 + r % 16) * 16 + g / 16) * 16 + g % 16) (b / 16) _
        (omega arith) (omega arith)
    ∙ color_digits-hex_digit ((((r / 16 * 16 + r % 16) * 16 + g / 16) * 16 + g % 16) * 16 + b / 16)
        (b % 16) _ (omega arith) (omega arith)
    ∙ color_digits-nil (six r g b)
    ∙ ap some (omega arith)

-- A colour of bytes reads back from its printed form.
pub parse_color-print_color : (c : RgbColor) → IsColor c → parse_color (print_color c) ≡ some c
unfolding parse_color print_color
parse_color-print_color c h = ground (
  arith,
  color_digits-six c.red c.green c.blue h.red_byte h.green_byte h.blue_byte,
  color_of-bytes c.red c.green c.blue h.red_byte h.green_byte h.blue_byte,
)

high_five_table : all_below 256 (λ b. bit_and b 0xf8 == b / 8 * 8) ≡ true
unfolding all_below
high_five_table = refl

high_six_table : all_below 256 (λ b. bit_and b 0xfc == b / 4 * 4) ≡ true
unfolding all_below
high_six_table = refl

high_five : (b : ℕ) → b < 256 → bit_and b 0xf8 ≡ b / 8 * 8
high_five b h =
    ground (arith, all_below_sound 256 (λ b. bit_and b 0xf8 == b / 8 * 8) b high_five_table h)

high_six : (b : ℕ) → b < 256 → bit_and b 0xfc ≡ b / 4 * 4
high_six b h =
    ground (arith, all_below_sound 256 (λ b. bit_and b 0xfc == b / 4 * 4) b high_six_table h)

pixel_sum : (c : RgbColor) → IsColor c → pixel c ≡ c.red / 8 * 2048 + c.green / 4 * 32 + c.blue / 8
unfolding pixel rgb565
pixel_sum c h =
    let red : c.red / 8 * 8 * 2 ^ 8 % 2 ^ 32 ≡ c.red / 8 * 2 ^ 11 = omega (arith, h.red_byte) in
    let green : c.green / 4 * 4 * 2 ^ 3 % 2 ^ 32 ≡ c.green / 4 * 2 ^ 5 =
      omega (arith, h.green_byte) in
    let both : c.red / 8 * 2 ^ 11 + c.green / 4 * 2 ^ 5 ≡ (c.red / 8 * 64 + c.green / 4) * 2 ^ 5 =
      omega arith in
    rw
      (
        high_five c.red h.red_byte,
        high_six c.green h.green_byte,
        red,
        green,
        bit_or-shifted 11 (c.red / 8) (c.green / 4 * 2 ^ 5) (omega (arith, h.green_byte)),
        both,
        bit_or-shifted 5 (c.red / 8 * 64 + c.green / 4) (c.blue / 2 ^ 3)
            (omega (arith, h.blue_byte)),
      )
      (omega (arith, h.red_byte, h.green_byte, h.blue_byte))

-- The 16-bit pixel of a colour of bytes holds its five, six and five high bits in that order.
pub pixel_fields :
    (c : RgbColor)
    → IsColor c
    → (pixel c / 2048 ≡ c.red / 8) × (pixel c / 32 % 64 ≡ c.green / 4) × (pixel c % 32 ≡ c.blue / 8)
pixel_fields c h = omega (arith, pixel_sum c h, h.red_byte, h.green_byte, h.blue_byte)
