-- ===== src/Text/Utf8/Valid.antt =====
-- `valid_utf8_text` accepts exactly the UTF-8 encodings of short enough printable texts.
use nes_deck.Prelude.{
  ℕ, zero, suc, ◌+◌, ◌≤◌, ◌≡◌, ◌≢◌, refl, ap, subst, ◌∙◌, List, [], ◌∷◌, ◌++◌, arith, inl, inr, ◌↔◌,
  true, false, none, some, ltb, if◌then◌else◌, All, All-append_right, Bytes, AllBytes, length,
  length-append, Option-cases,
}
use nes_deck.Text.{next_codepoint, utf8_loop, valid_utf8_text}
use nes_deck.Text.Utf8.{encode_codepoint, encode_text, IsPrintable}
use nes_deck.Text.Utf8.Decode.{next_codepoint-encode_codepoint}
use nes_deck.Text.Utf8.Shape.{next_codepoint_sound}

-- `text` is the encoding of at most `most` printable code points.
pub record IsPrintableText (most : ℕ) (text : Bytes) : Type 0 where
  pub codepoints : List ℕ
  pub spelled : text ≡ encode_text codepoints
  pub printable : All IsPrintable codepoints
  pub short : length codepoints ≤ most

pub length-encode_codepoint : (c : ℕ) → 1 ≤ length (encode_codepoint c)
unfolding encode_codepoint
length-encode_codepoint c = ground arith

next_codepoint-nil : next_codepoint [] ≡ none
unfolding next_codepoint
next_codepoint-nil = refl

utf8_loop_step :
    (fuel : ℕ) (text : Bytes) (most count c : ℕ) (behind : Bytes)
    → next_codepoint text ≡ some (c, behind)
    → utf8_loop (suc fuel) text most count
      ≡ (if ltb most (count + 1) then false else utf8_loop fuel behind most (count + 1))
unfolding utf8_loop
utf8_loop_step fuel [] most count c behind e = cc (next_codepoint-nil)
utf8_loop_step fuel (first ∷ rest) most count c behind e = ground (arith, e)

utf8_loop-encode_text :
    (fuel : ℕ) (cs : List ℕ) (most count : ℕ)
    → All IsPrintable cs
    → length (encode_text cs) ≤ fuel
    → count + length cs ≤ most
    → utf8_loop fuel (encode_text cs) most count ≡ true
unfolding encode_text utf8_loop
utf8_loop-encode_text fuel [] most count h enough short = ground arith
utf8_loop-encode_text zero (c ∷ cs) most count h enough short =
    absurd (
      omega (arith, length-encode_codepoint c, length-append (encode_codepoint c) (encode_text cs)))
utf8_loop-encode_text (suc fuel) (c ∷ cs) most count (p, h) enough short =
    utf8_loop_step fuel _ most count c (encode_text cs)
      (next_codepoint-encode_codepoint c p (encode_text cs))
    ∙ ground (
      arith,
      utf8_loop-encode_text fuel cs most (count + 1) h
          (omega
            (arith, length-encode_codepoint c, length-append (encode_codepoint c) (encode_text cs)))
          (omega arith),
    )

utf8_loop_sound :
    (fuel : ℕ) (text : Bytes) (most count : ℕ)
    → AllBytes text
    → count ≤ most
    → utf8_loop fuel text most count ≡ true
    → (cs : List ℕ) × (text ≡ encode_text cs) × All IsPrintable cs × (count + length cs ≤ most)
unfolding encode_text
utf8_loop_sound fuel [] most count all small e = ([], refl, tt, omega arith)
utf8_loop_sound zero (first ∷ rest) most count all small e = absurd (unfold utf8_loop in cc e)
utf8_loop_sound (suc fuel) (first ∷ rest) most count all small e =
    elim (Option-cases (next_codepoint (first ∷ rest))) [
      | inl stop ↦ absurd (unfold utf8_loop in ground (arith, stop))
      | inr ((c, behind), n) ↦
          let (p, spelled) = next_codepoint_sound first rest c behind all n in
          let step = utf8_loop_step fuel (first ∷ rest) most count c behind n in
          let more : ltb most (count + 1) ≡ false = ground (arith, step) in
          let (cs, behind_spelled, h, short) =
            utf8_loop_sound fuel behind most (count + 1)
              (All-append_right _ (encode_codepoint c) behind (subst AllBytes spelled all))
              (ground (arith, more)) (ground (arith, step, more)) in
          (
            c ∷ cs,
            spelled ∙ ap (λ t. encode_codepoint c ++ t) behind_spelled,
            (p, h),
            omega (arith, short),
          )
    ]

-- On byte strings, and without leave for the empty text, `valid_utf8_text` accepts exactly the
-- texts that are not empty and are the UTF-8 encoding of at most `max_codepoints` printable code
-- points: scalar values from U+0020 on, without U+007F and without surrogates.
pub valid_utf8_text_iff :
    (text : Bytes) (max_codepoints : ℕ)
    → AllBytes text
    → (valid_utf8_text text max_codepoints false ≡ true)
      ↔ ((text ≢ []) × IsPrintableText max_codepoints text)
unfolding valid_utf8_text
valid_utf8_text_iff [] most all = (λ e. cc, λ h. absurd (h.0 refl))
valid_utf8_text_iff (first ∷ rest) most all = (
  λ e.
      let (cs, spelled, h, short) =
        utf8_loop_sound (length (first ∷ rest)) (first ∷ rest) most 0 all (omega arith) e in
      (
        λ n. cc,
        record { codepoints = cs; spelled = spelled; printable = h; short = omega (arith, short) },
      ),
  λ (n, p). rw p.spelled (
      utf8_loop-encode_text (length (first ∷ rest)) p.codepoints most 0 p.printable
        (omega (arith, ap length p.spelled)) (omega (arith, p.short))),
)
