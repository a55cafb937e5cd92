-- ===== src/Text/Display.antt =====
-- `display_ascii` gives ASCII for any bytes, and one character for each code point of UTF-8 text.
use native.Mathlib.Decide.{dec_lt}
use nes_deck.Prelude.{
  ℕ, zero, suc, ◌+◌, ◌/◌, ◌≤◌, ◌<◌, ◌≡◌, refl, sym, ap, subst, ◌∙◌, List, [], ◌∷◌, ◌++◌, map, arith,
  ◌⊎◌, inl, inr, Bool-cases, ltb, if◌then◌else◌, All, Bytes, length, length-append, drop,
}
use nes_deck.Text.{display_length, display_loop, display_ascii}
use nes_deck.Text.Utf8.{encode_codepoint, encode_text, IsPrintable, display_length-ranges}
use nes_deck.Text.Utf8.Valid.{length-encode_codepoint}

abbrev pub AllAscii : Bytes → Type 0
AllAscii = All (λ c. c < 0x80)

display_small :
    (fuel first : ℕ) (rest : Bytes)
    → first < 0x80
    → display_loop (suc fuel) (first ∷ rest) ≡ first ∷ display_loop fuel rest
unfolding display_loop
display_small fuel first rest h = ground arith

display_large :
    (fuel first : ℕ) (rest : Bytes)
    → 0x80 ≤ first
    → display_loop (suc fuel) (first ∷ rest)
      ≡ b'?' ∷ display_loop fuel (drop (display_length first) (first ∷ rest))
unfolding display_loop
display_large fuel first rest h = ground arith

display_loop-AllAscii : (fuel : ℕ) (text : Bytes) → AllAscii (display_loop fuel text)
unfolding display_loop
display_loop-AllAscii fuel [] = tt
display_loop-AllAscii zero (first ∷ rest) = tt
display_loop-AllAscii (suc fuel) (first ∷ rest) = elim (dec_lt first 0x80) [
  | yes small ↦
      subst AllAscii (sym (display_small fuel first rest small))
        (small, display_loop-AllAscii fuel rest)
  | no large ↦
      subst AllAscii (sym (display_large fuel first rest (omega arith)))
        (omega arith, display_loop-AllAscii fuel (drop (display_length first) (first ∷ rest)))
]

-- One character of the result.
abbrev pub shown : ℕ → ℕ
shown c = if ltb c 0x80 then c else b'?'

-- The first byte of an encoding tells how long it is.
display_length_of :
    (n first : ℕ)
    → ((n ≡ 2) × (0xc0 ≤ first) × (first ≤ 0xdf))
      ⊎ ((n ≡ 3) × (0xe0 ≤ first) × (first ≤ 0xef))
      ⊎ ((n ≡ 4) × (0xf0 ≤ first) × (first ≤ 0xf7))
    → display_length first ≡ n
display_length_of n first h = ground (arith, display_length-ranges first)

display_step :
    (fuel c : ℕ) (rest : Bytes)
    → IsPrintable c
    → display_loop (suc fuel) (encode_codepoint c ++ rest) ≡ shown c ∷ display_loop fuel rest
unfolding encode_codepoint
display_step fuel c rest p = elim (Bool-cases (ltb c 0x80)) [
  | inl one ↦ rw one (display_small fuel c rest (ground arith))
  | inr more ↦ elim (Bool-cases (ltb c 0x800)) [
    | inl two ↦
        let n = display_length_of 2 (0xc0 + c / 64) (ground arith) in
        rw (more, two) (display_large fuel (0xc0 + c / 64) _ (omega arith) ∙ rw n)
    | inr large ↦ elim (Bool-cases (ltb c 0x10000)) [
      | inl three ↦
          let n = display_length_of 3 (0xe0 + c / 4096) (ground arith) in
          rw (more, large, three) (display_large fuel (0xe0 + c / 4096) _ (omega arith) ∙ rw n)
      | inr four ↦
          let n = display_length_of 4 (0xf0 + c / 262144) (ground (arith, p.at_most)) in
          rw (more, large, four) (display_large fuel (0xf0 + c / 262144) _ (omega arith) ∙ rw n)
    ]
  ]
]

display_loop-encode_text :
    (fuel : ℕ) (cs : List ℕ)
    → All IsPrintable cs
    → length (encode_text cs) ≤ fuel
    → display_loop fuel (encode_text cs) ≡ map shown cs
unfolding encode_text
display_loop-encode_text fuel [] h enough = unfold display_loop in refl
display_loop-encode_text zero (c ∷ cs) (p, h) enough =
    absurd (
      omega (arith, length-encode_codepoint c, length-append (encode_codepoint c) (encode_text cs)))
display_loop-encode_text (suc fuel) (c ∷ cs) (p, h) enough =
    display_step fuel c (encode_text cs) p
    ∙ ap (◌∷◌ (shown c)) (
        display_loop-encode_text fuel cs h (
          omega (
            arith,
            length-encode_codepoint c,
            length-append (encode_codepoint c) (encode_text cs),
          )))

-- What is displayed of any bytes is ASCII.
pub display_ascii-AllAscii : (text : Bytes) → AllAscii (display_ascii text)
unfolding display_ascii
display_ascii-AllAscii text = display_loop-AllAscii (length text) text

-- Of UTF-8 text one character is displayed for each code point: the ASCII ones as they are, and
-- `?` for each of the others.
pub display_ascii-encode_text :
    (cs : List ℕ) → All IsPrintable cs → display_ascii (encode_text cs) ≡ map shown cs
unfolding display_ascii
display_ascii-encode_text cs h =
    display_loop-encode_text (length (encode_text cs)) cs h (omega arith)
