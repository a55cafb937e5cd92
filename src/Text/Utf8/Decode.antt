-- ===== src/Text/Utf8/Decode.antt =====
-- The decoding step of `valid_utf8_text` reads back one encoded code point, and nothing else.
use nes_deck.Prelude.{
  ℕ, suc, ◌+◌, ◌-◌, ◌*◌, ◌/◌, ◌%◌, ◌^◌, ◌≤◌, ◌<◌, ◌≡◌, refl, ap, ◌∙◌, [], ◌∷◌, ◌++◌, arith, inl,
  inr, false, Bool-cases, none, some, ltb, within, Bytes, AllBytes, Option-cases,
}
use nes_deck.Text.{lead, continuation, refuses_codepoint, next_codepoint}
use nes_deck.Text.Utf8.{encode_codepoint, IsPrintable, lead_ranges, lead-ranges, continuation_step}

-- One continuation byte that carries six bits.
continuation_next :
    (left cp x : ℕ) (rest : Bytes)
    → cp < 2 ^ 26
    → x < 64
    → continuation (suc left) cp ((0x80 + x) ∷ rest) ≡ continuation left (cp * 64 + x) rest
continuation_next left cp x rest h hx =
    let e : (0x80 + x) % 64 ≡ x = omega arith in
    continuation_step left cp (0x80 + x) rest (omega arith) h ∙ rw e (ground arith)

pub continuation_end : (cp : ℕ) (rest : Bytes) → continuation 0 cp rest ≡ some (cp, rest)
unfolding continuation
continuation_end cp rest = refl

-- The same backwards: what a continuation that was read looks like.
pub record Continues (left cp : ℕ) (rest : Bytes) (r : ℕ × Bytes) : Type 0 where
  pub bits : ℕ
  pub tail : Bytes
  pub six : bits < 64
  pub splits : rest ≡ (0x80 + bits) ∷ tail
  pub later : continuation left (cp * 64 + bits) tail ≡ some r

continuation-nil : (left cp : ℕ) → continuation (suc left) cp [] ≡ none
unfolding continuation
continuation-nil left cp = refl

pub continuation-Continues :
    (left cp : ℕ) (rest : Bytes) {r : ℕ × Bytes}
    → AllBytes rest
    → cp < 2 ^ 26
    → continuation (suc left) cp rest ≡ some r
    → Continues left cp rest r
continuation-Continues left cp [] h small e = cc (continuation-nil left cp)
continuation-Continues left cp (next ∷ rest) h small e = elim (Bool-cases (within 0x80 0xbf next)) [
  | inl fits ↦ record {
    bits = next - 0x80;
    tail = rest;
    six = ground arith;
    splits = ap (λ t. t ∷ rest) (ground arith);
    later =
        let x : next % 64 ≡ next - 0x80 = ground arith in
        rw (← x) (ground (arith, continuation_step left cp next rest h.0 small));
  }
  | inr other ↦ absurd (ground (arith, continuation_step left cp next rest h.0 small))
]

-- What an accepted step says: its lead, its continuation and the two tests.
pub record Reads (first : ℕ) (rest : Bytes) (c : ℕ) (behind : Bytes) : Type 0 where
  pub bits : ℕ
  pub size : ℕ
  pub led : lead first ≡ some (bits, size)
  pub continued : continuation (size - 1) bits rest ≡ some (c, behind)
  pub kept : refuses_codepoint size c ≡ false

pub next_codepoint-Reads :
    (first : ℕ) (rest : Bytes) {c : ℕ} {behind : Bytes}
    → next_codepoint (first ∷ rest) ≡ some (c, behind)
    → Reads first rest c behind
unfolding next_codepoint
next_codepoint-Reads first rest e = elim (Option-cases (lead first)) [
  | inl no_lead ↦ cc (rw (no_lead, next_codepoint) at e)
  | inr ((bits, size), led) ↦ elim (Option-cases (continuation (size - 1) bits rest)) [
    | inl stop ↦ absurd (ground (arith, led, stop))
    | inr ((d, after), continued) ↦ record {
      bits = bits;
      size = size;
      led = led;
      continued = continued ∙ ground (arith, led, continued);
      kept = ground (arith, led, continued);
    }
  ]
]

Reads-next_codepoint :
    {first : ℕ} {rest : Bytes} {c : ℕ} {behind : Bytes}
    → Reads first rest c behind
    → next_codepoint (first ∷ rest) ≡ some (c, behind)
unfolding next_codepoint
Reads-next_codepoint r = ground (arith, r.led, r.continued, r.kept)

-- The encoder's bytes for the four sizes, read back.
module _ (c : ℕ) (p : IsPrintable c) (rest : Bytes) where
  Reads-one : c < 0x80 → Reads c rest c rest
  unfolding refuses_codepoint lead_ranges
  Reads-one h = record {
    bits = c;
    size = 1;
    led = lead-ranges c (omega arith) ∙ ground arith;
    continued = continuation_end c rest;
    kept = ground arith;
  }

  Reads-two : 0x80 ≤ c → c < 0x800 → Reads (0xc0 + c / 64) ((0x80 + c % 64) ∷ rest) c rest
  unfolding refuses_codepoint lead_ranges
  Reads-two lo hi = record {
    bits = c / 64;
    size = 2;
    led = lead-ranges (0xc0 + c / 64) (omega arith) ∙ ground arith;
    continued =
        continuation_next 0 (c / 64) (c % 64) rest (omega arith) (omega arith)
        ∙ continuation_end (c / 64 * 64 + c % 64) rest
        ∙ ground arith;
    kept = ground arith;
  }

  Reads-three :
      0x800 ≤ c
      → c < 0x10000
      → Reads (0xe0 + c / 4096) ((0x80 + c / 64 % 64) ∷ (0x80 + c % 64) ∷ rest) c rest
  unfolding refuses_codepoint lead_ranges
  Reads-three lo hi = record {
    bits = c / 4096;
    size = 3;
    led = lead-ranges (0xe0 + c / 4096) (omega arith) ∙ ground arith;
    continued =
        continuation_next 1 (c / 4096) (c / 64 % 64) _ (omega arith) (omega arith)
        ∙ continuation_next 0 (c / 4096 * 64 + c / 64 % 64) (c % 64) rest (omega arith)
            (omega arith)
        ∙ continuation_end _ rest
        ∙ ground arith;
    kept = ground arith;
  }

  Reads-four :
      0x10000 ≤ c
      → Reads
          (0xf0 + c / 262144)
          ((0x80 + c / 4096 % 64) ∷ (0x80 + c / 64 % 64) ∷ (0x80 + c % 64) ∷ rest)
          c
          rest
  unfolding refuses_codepoint lead_ranges
  Reads-four lo = record {
    bits = c / 262144;
    size = 4;
    led = lead-ranges (0xf0 + c / 262144) (omega (arith, p.at_most)) ∙ ground (arith, p.at_most);
    continued =
        continuation_next 2 (c / 262144) (c / 4096 % 64) _ (omega (arith, p.at_most)) (omega arith)
        ∙ continuation_next 1 (c / 262144 * 64 + c / 4096 % 64) (c / 64 % 64) _
            (omega (arith, p.at_most)) (omega arith)
        ∙ continuation_next 0 ((c / 262144 * 64 + c / 4096 % 64) * 64 + c / 64 % 64) (c % 64) rest
            (omega (arith, p.at_most)) (omega arith)
        ∙ continuation_end _ rest
        ∙ ground arith;
    kept = ground arith;
  }

  -- The step on an encoded printable code point.
  pub next_codepoint-encode_codepoint : next_codepoint (encode_codepoint c ++ rest) ≡ some (c, rest)
  unfolding encode_codepoint
  next_codepoint-encode_codepoint = elim (Bool-cases (ltb c 0x80)) [
    | inl one ↦ rw one (Reads-next_codepoint (Reads-one (ground arith)))
    | inr more ↦ elim (Bool-cases (ltb c 0x800)) [
      | inl two ↦ rw (more, two) (Reads-next_codepoint (Reads-two (ground arith) (ground arith)))
      | inr large ↦ elim (Bool-cases (ltb c 0x10000)) [
        | inl three ↦
            rw (more, large, three)
              (Reads-next_codepoint (Reads-three (ground arith) (ground arith)))
        | inr four ↦ rw (more, large, four) (Reads-next_codepoint (Reads-four (ground arith)))
      ]
    ]
  ]
