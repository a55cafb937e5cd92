-- ===== src/Runtime/Environment.antt =====
-- What src/deck_runtime.cpp takes from the environment and from the emulators' pixels.
use nes_deck.Prelude.{
  ℕ, ◌+◌, ◌-◌, ◌*◌, ◌/◌, ◌%◌, ◌^◌, ◌<◌, ◌≡◌, refl, ◌∙◌, arith, bit_and, bit_or, Bool, true, false,
  not, [], ◌∷◌, Option, none, some, Option-cases, Bool-cases, inl, inr, ltb, within, if◌then◌else◌,
  Bytes, codes, equal,
}
use nes_deck.Prelude.Bits.{bit_and-mask}
use nes_deck.Catalog.Color.{rgb, rgb565, pixel}
use nes_deck.MenuState.Number.{to_string, parse_digits, parse_volume_percent}

-- `DeckRgb888To565`, on 32 bits.
unfoldable pub rgb888_to_565 : ℕ → ℕ
rgb888_to_565 color =
    let red = bit_and (color / 2 ^ 16) 0xff in
    let green = bit_and (color / 2 ^ 8) 0xff in
    let blue = bit_and color 0xff in
    bit_or (bit_or (bit_and red 0xf8 * 2 ^ 8 % 2 ^ 32) (bit_and green 0xfc * 2 ^ 3 % 2 ^ 32))
      (blue / 2 ^ 3)
    % 2 ^ 16

abbrev pub default_volume : ℕ
default_volume = 42

-- The loop over the characters, which gives up above 100.
unfoldable pub volume_loop : ℕ → Bytes → Option ℕ
volume_loop parsed [] = some parsed
volume_loop parsed (c ∷ cs) =
    let next = parsed * 10 + (c - b'0') in
    let rest = volume_loop next cs in
    if not (within b'0' b'9' c) then none else if ltb 100 next then none else rest

-- `DeckReadVolumePercent`: what it returns and the volume that it leaves, given what `getenv` finds.
unfoldable pub read_volume_percent : Option Bytes → Bool × ℕ
read_volume_percent none = (true, default_volume)
read_volume_percent (some []) = (false, default_volume)
read_volume_percent (some (c ∷ cs)) = elim (volume_loop 0 (c ∷ cs)) [
  | none ↦ (false, default_volume)
  | some parsed ↦ (true, parsed)
]

-- `DeckExitHintRequested`.
unfoldable pub exit_hint_requested : Option Bytes → Bool
exit_hint_requested none = false
exit_hint_requested (some value) = equal value (codes "1")

-- The pixel that an emulator's colour becomes is the one that the menu gives the same colour.
pub rgb888_to_565-pixel :
    (red green blue : ℕ)
    → red < 256
    → green < 256
    → blue < 256
    → rgb888_to_565 ((red * 256 + green) * 256 + blue) ≡ pixel (rgb red green blue)
unfolding rgb888_to_565 pixel rgb565
rgb888_to_565-pixel red green blue hr hg hb =
    let v = (red * 256 + green) * 256 + blue in
    let r : bit_and (v / 2 ^ 16) 0xff ≡ red = omega (arith, bit_and-mask 8 (v / 2 ^ 16)) in
    let g : bit_and (v / 2 ^ 8) 0xff ≡ green = omega (arith, bit_and-mask 8 (v / 2 ^ 8)) in
    let b : bit_and v 0xff ≡ blue = omega (arith, bit_and-mask 8 v) in rw (r, g, b) refl

volume_loop-digits :
    (parsed : ℕ) (text : Bytes) → volume_loop parsed text ≡ parse_digits parsed text
unfolding volume_loop parse_digits
volume_loop-digits parsed [] = refl
volume_loop-digits parsed (c ∷ cs) = rw (volume_loop-digits (parsed * 10 + (c - b'0')) cs) refl

parse_volume_percent-digits :
    (c : ℕ) (cs : Bytes) (v : ℕ)
    → parse_volume_percent (c ∷ cs) ≡ some v
    → parse_digits 0 (c ∷ cs) ≡ some v
unfolding parse_volume_percent
parse_volume_percent-digits c cs v e = elim (Option-cases (parse_digits 0 (c ∷ cs))) [
  | inl stop ↦ absurd (ground (arith, e, stop))
  | inr (value, is) ↦ elim (Bool-cases (equal (to_string value) (c ∷ cs))) [
    | inl same ↦ ground (arith, e, is, same)
    | inr other ↦ absurd (ground (arith, e, is, other))
  ]
]

parse_volume_percent-nil : (v : ℕ) → parse_volume_percent [] ≡ some v → ⊥
unfolding parse_volume_percent
parse_volume_percent-nil v e = cc

read_volume_percent-digits :
    (c : ℕ) (cs : Bytes) (v : ℕ)
    → volume_loop 0 (c ∷ cs) ≡ some v
    → read_volume_percent (some (c ∷ cs)) ≡ (true, v)
unfolding read_volume_percent
read_volume_percent-digits c cs v e = ground (arith, e)

-- Every text that the menu reads from its state file as a volume, an emulator reads from the
-- environment as the same one.
pub read_volume_percent-parse_volume_percent :
    (text : Bytes) (v : ℕ)
    → parse_volume_percent text ≡ some v
    → read_volume_percent (some text) ≡ (true, v)
read_volume_percent-parse_volume_percent [] v e = absurd (parse_volume_percent-nil v e)
read_volume_percent-parse_volume_percent (c ∷ cs) v e =
    read_volume_percent-digits c cs v
      (volume_loop-digits 0 (c ∷ cs) ∙ parse_volume_percent-digits c cs v e)
