-- ===== src/Text/Utf8.antt =====
-- UTF-8 as an encoder, and the bit tests of src/menu_text.cpp on the bytes that it writes.
pub mod Decode
pub mod Shape
pub mod Valid
use nes_deck.Prelude.{
  ℕ, zero, suc, ◌+◌, ◌-◌, ◌*◌, ◌/◌, ◌%◌, ◌^◌, ◌≤◌, ◌<◌, ◌≡◌, ◌≢◌, refl, sym, ap, ◌∙◌, bit_and,
  bit_or, List, [], ◌∷◌, ◌++◌, arith, ◌⊎◌, inl, inr, Bool, true, false, not, Bool-cases, Option,
  none, some, ◌==◌, ◌!=◌, ltb, leb, within, if◌then◌else◌, ◌&&◌, append_assoc, All, Bytes, length,
  IsByte,
}
use nes_deck.Prelude.Bits.{all_below, all_below_sound, bit_and-mask, bit_or-shifted}
use nes_deck.Text.{lead, continuation, refuses_codepoint, display_length}

-- The encoding of one code point.
unfoldable pub encode_codepoint : ℕ → Bytes
encode_codepoint c =
    if ltb c 0x80
    then c ∷ []
    else if ltb c 0x800
    then (0xc0 + c / 64) ∷ (0x80 + c % 64) ∷ []
    else if ltb c 0x10000
    then (0xe0 + c / 4096) ∷ (0x80 + c / 64 % 64) ∷ (0x80 + c % 64) ∷ []
    else (0xf0 + c / 262144) ∷ (0x80 + c / 4096 % 64) ∷ (0x80 + c / 64 % 64) ∷ (0x80 + c % 64) ∷ []

unfoldable pub encode_text : List ℕ → Bytes
encode_text [] = []
encode_text (c ∷ cs) = encode_codepoint c ++ encode_text cs

-- A Unicode scalar value that is no control character.
pub record IsPrintable (c : ℕ) : Type 0 where
  pub at_least : 0x20 ≤ c
  pub at_most : c ≤ 0x10ffff
  pub no_delete : c ≢ 0x7f
  pub no_surrogate : (c < 0xd800) ⊎ (0xdfff < c)

-- Two tests that agree on every byte.
abbrev agree : (ℕ → Bool) → (ℕ → Bool) → ℕ → Bool
agree p q b = if p b then q b else not (q b)

agree_sound : (p q : ℕ → Bool) (b : ℕ) → all_below 256 (agree p q) ≡ true → IsByte b → p b ≡ q b
agree_sound p q b table h = ground (arith, all_below_sound 256 (agree p q) b table h)

two_table : all_below 256 (agree (λ b. bit_and b 0xe0 == 0xc0) (within 0xc0 0xdf)) ≡ true
unfolding all_below
two_table = refl

three_table : all_below 256 (agree (λ b. bit_and b 0xf0 == 0xe0) (within 0xe0 0xef)) ≡ true
unfolding all_below
three_table = refl

four_table : all_below 256 (agree (λ b. bit_and b 0xf8 == 0xf0) (within 0xf0 0xf7)) ≡ true
unfolding all_below
four_table = refl

next_table :
    all_below 256 (agree (λ b. bit_and b 0xc0 != 0x80) (λ b. not (within 0x80 0xbf b))) ≡ true
unfolding all_below
next_table = refl

-- `lead` by ranges of the byte.
lead_ranges : ℕ → Option (ℕ × ℕ)
lead_ranges b =
    if ltb b 0x80
    then some (b, 1)
    else if within 0xc0 0xdf b
    then some (b % 32, 2)
    else if within 0xe0 0xef b
    then some (b % 16, 3)
    else if within 0xf0 0xf7 b
    then some (b % 8, 4)
    else none

lead-ranges : (b : ℕ) → IsByte b → lead b ≡ lead_ranges b
unfolding lead lead_ranges
lead-ranges b h = rw (
  agree_sound (λ b. bit_and b 0xe0 == 0xc0) (within 0xc0 0xdf) b two_table h,
  agree_sound (λ b. bit_and b 0xf0 == 0xe0) (within 0xe0 0xef) b three_table h,
  agree_sound (λ b. bit_and b 0xf8 == 0xf0) (within 0xf0 0xf7) b four_table h,
  bit_and-mask 5 b,
  bit_and-mask 4 b,
  bit_and-mask 3 b,
)

pub display_length-ranges :
    (b : ℕ)
    → IsByte b
    → display_length b ≡ (
        if within 0xc0 0xdf b
        then 2
        else if within 0xe0 0xef b
        then 3
        else if within 0xf0 0xf7 b
        then 4
        else 1)
unfolding display_length
display_length-ranges b h = rw (
  agree_sound (λ b. bit_and b 0xe0 == 0xc0) (within 0xc0 0xdf) b two_table h,
  agree_sound (λ b. bit_and b 0xf0 == 0xe0) (within 0xe0 0xef) b three_table h,
  agree_sound (λ b. bit_and b 0xf8 == 0xf0) (within 0xf0 0xf7) b four_table h,
)

-- One continuation byte.
continuation_step :
    (left cp next : ℕ) (rest : Bytes)
    → IsByte next
    → cp < 2 ^ 26
    → continuation (suc left) cp (next ∷ rest)
      ≡ (if within 0x80 0xbf next then continuation left (cp * 64 + next % 64) rest else none)
unfolding continuation
continuation_step left cp next rest h small =
    let whole : cp * 2 ^ 6 % 2 ^ 32 ≡ cp * 2 ^ 6 = omega arith in
    rw
      (
        agree_sound (λ b. bit_and b 0xc0 != 0x80) (λ b. not (within 0x80 0xbf b)) next next_table h,
        whole,
        bit_and-mask 6 next,
        bit_or-shifted 6 cp (next % 64) (omega arith),
      )
      (ground arith)
