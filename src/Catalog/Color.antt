-- ===== src/Catalog/Color.antt =====
-- `RgbColor`, `rgb565`, `xterm_color`, `is_xterm_color` and `parse_color`.
pub mod Laws
use nes_deck.Prelude.{
  ℕ, zero, suc, ◌+◌, ◌-◌, ◌*◌, ◌/◌, ◌%◌, ◌^◌, bit_and, bit_or, Bool, true, false, not, ◌&&◌, ◌||◌,
  List, [], ◌∷◌, Option, none, some, ltb, within, ◌==◌, if◌then◌else◌, length, get_or, Bytes,
}

pub record RgbColor : Type 0 where
  pub red : ℕ
  pub green : ℕ
  pub blue : ℕ

abbrev pub rgb : ℕ → ℕ → ℕ → RgbColor
rgb r g b = record { red = r; green = g; blue = b }

-- `rgb565`, with the cast to 16 bits.
unfoldable pub rgb565 : ℕ → ℕ → ℕ → ℕ
rgb565 red green blue =
    bit_or (bit_or (bit_and red 0xf8 * 2 ^ 8 % 2 ^ 32) (bit_and green 0xfc * 2 ^ 3 % 2 ^ 32))
      (blue / 2 ^ 3)
    % 2 ^ 16

unfoldable pub pixel : RgbColor → ℕ
pixel color = rgb565 color.red color.green color.blue

abbrev ansi_colors : List RgbColor
ansi_colors =
    rgb 0 0 0
    ∷ rgb 128 0 0
    ∷ rgb 0 128 0
    ∷ rgb 128 128 0
    ∷ rgb 0 0 128
    ∷ rgb 128 0 128
    ∷ rgb 0 128 128
    ∷ rgb 192 192 192
    ∷ rgb 128 128 128
    ∷ rgb 255 0 0
    ∷ rgb 0 255 0
    ∷ rgb 255 255 0
    ∷ rgb 0 0 255
    ∷ rgb 255 0 255
    ∷ rgb 0 255 255
    ∷ rgb 255 255 255
    ∷ []

abbrev cube_levels : List ℕ
cube_levels = 0 ∷ 95 ∷ 135 ∷ 175 ∷ 215 ∷ 255 ∷ []

unfoldable pub xterm_color : ℕ → RgbColor
xterm_color index =
    if ltb index 16
    then get_or ansi_colors index (rgb 0 0 0)
    else if ltb index 232
    then (let cube = index - 16 in
        rgb (get_or cube_levels (cube / 36) 0) (get_or cube_levels (cube / 6 % 6) 0)
          (get_or cube_levels (cube % 6) 0))
    else if ltb index 256
    then (let level = 8 + (index - 232) * 10 in rgb level level level)
    else rgb 0 0 0

unfoldable pub same_color : RgbColor → RgbColor → Bool
same_color a b = a.red == b.red && a.green == b.green && a.blue == b.blue

-- The loop over `index`, with the rounds that are left.
unfoldable pub palette_loop : ℕ → ℕ → RgbColor → Bool
palette_loop zero index color = false
palette_loop (suc rounds) index color =
    same_color (xterm_color index) color || palette_loop rounds (index + 1) color

unfoldable pub is_xterm_color : RgbColor → Bool
is_xterm_color color = palette_loop 256 0 color

unfoldable pub nibble : ℕ → Option ℕ
nibble c =
    if within b'0' b'9' c
    then some (c - b'0')
    else if within b'a' b'f' c
    then some (c - b'a' + 10)
    else if within b'A' b'F' c
    then some (c - b'A' + 10)
    else none

-- The loop over the digits.
unfoldable pub color_digits : ℕ → Bytes → Option ℕ
color_digits value [] = some value
color_digits value (c ∷ cs) = elim (nibble c) [
  | none ↦ none
  | some n ↦ color_digits (bit_or (value * 2 ^ 4 % 2 ^ 32) n) cs
]

unfoldable pub color_of : ℕ → RgbColor
color_of value =
    rgb (bit_and (value / 2 ^ 16) 0xff) (bit_and (value / 2 ^ 8) 0xff) (bit_and value 0xff)

abbrev hash_sign : Bytes → Bool
hash_sign [] = false
hash_sign (c ∷ cs) = c == b'#'

abbrev tail : Bytes → Bytes
tail [] = []
tail (c ∷ cs) = cs

-- `none` where the function returns false.
unfoldable pub parse_color : Bytes → Option RgbColor
parse_color text =
    if not (length text == 7) || not (hash_sign text)
    then none
    else elim (color_digits 0 (tail text)) [ none ↦ none | some value ↦ some (color_of value) ]
