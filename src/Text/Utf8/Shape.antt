-- ===== src/Text/Utf8/Shape.antt =====
-- What `valid_utf8_text` accepts in one step is the encoding of one printable code point.
use nes_deck.Prelude.{
  ℕ, ◌+◌, ◌*◌, ◌≤◌, ◌<◌, ◌≡◌, ◌∷◌, ◌++◌, arith, inl, inr, false, Bool-cases, some, ltb, within,
  Bytes, AllBytes, IsByte,
}
use nes_deck.Text.{lead, continuation, refuses_codepoint, next_codepoint}
use nes_deck.Text.Utf8.{encode_codepoint, IsPrintable, lead_ranges, lead-ranges}
use nes_deck.Text.Utf8.Decode.{continuation-Continues, next_codepoint-Reads}

-- The four shapes of a leading byte.
data Lead (first bits size : ℕ) : Type 0 where
  one : size ≡ 1 → bits ≡ first → first < 0x80 → Lead first bits size
  two : size ≡ 2 → first ≡ 0xc0 + bits → bits < 32 → Lead first bits size
  three : size ≡ 3 → first ≡ 0xe0 + bits → bits < 16 → Lead first bits size
  four : size ≡ 4 → first ≡ 0xf0 + bits → bits < 8 → Lead first bits size

lead_shape :
    (first bits size : ℕ) → IsByte first → lead first ≡ some (bits, size) → Lead first bits size
unfolding lead_ranges
lead_shape first bits size h e = elim (Bool-cases (ltb first 0x80)) [
  | inl a ↦
      one (ground (arith, lead-ranges first h)) (ground (arith, lead-ranges first h)) (ground arith)
  | inr a ↦ elim (Bool-cases (within 0xc0 0xdf first)) [
    | inl b ↦
        two (ground (arith, lead-ranges first h)) (ground (arith, lead-ranges first h))
          (ground (arith, lead-ranges first h))
    | inr b ↦ elim (Bool-cases (within 0xe0 0xef first)) [
      | inl d ↦
          three (ground (arith, lead-ranges first h)) (ground (arith, lead-ranges first h))
            (ground (arith, lead-ranges first h))
      | inr d ↦
          four (ground (arith, lead-ranges first h)) (ground (arith, lead-ranges first h))
            (ground (arith, lead-ranges first h))
    ]
  ]
]

kept-IsPrintable : (size c : ℕ) → refuses_codepoint size c ≡ false → IsPrintable c
unfolding refuses_codepoint
kept-IsPrintable size c h = record {
  at_least = ground arith;
  at_most = ground arith;
  no_delete = ground arith;
  no_surrogate = ground arith;
}

continuation_end_iff :
    (cp c : ℕ) (rest behind : Bytes)
    → continuation 0 cp rest ≡ some (c, behind)
    → (c ≡ cp) × (rest ≡ behind)
unfolding continuation
continuation_end_iff cp c rest behind h = (cc, cc)

abbrev Spells : ℕ → Bytes → ℕ → Bytes → Type 0
Spells first rest c behind = first ∷ rest ≡ encode_codepoint c ++ behind

tail_bytes : {next : ℕ} {rest tail : Bytes} → rest ≡ next ∷ tail → AllBytes rest → AllBytes tail
tail_bytes e h = (rw e at h).1

module _ (first bits c : ℕ) (rest behind : Bytes) where
  Spells-one :
      bits ≡ first
      → first < 0x80
      → continuation 0 bits rest ≡ some (c, behind)
      → Spells first rest c behind
  unfolding encode_codepoint
  Spells-one e h k = ground (arith, continuation_end_iff bits c rest behind k)

  Spells-two :
      first ≡ 0xc0 + bits
      → bits < 32
      → AllBytes rest
      → 0x80 ≤ c
      → continuation 1 bits rest ≡ some (c, behind)
      → Spells first rest c behind
  unfolding encode_codepoint
  Spells-two e h all lo k =
      let r = continuation-Continues 0 bits rest all (omega arith) k in
      let (value, end) = continuation_end_iff _ c r.tail behind r.later in
      ground (arith, r.splits, r.six, value, end)

  Spells-three :
      first ≡ 0xe0 + bits
      → bits < 16
      → AllBytes rest
      → 0x800 ≤ c
      → continuation 2 bits rest ≡ some (c, behind)
      → Spells first rest c behind
  unfolding encode_codepoint
  Spells-three e h all lo k =
      let r = continuation-Continues 1 bits rest all (omega arith) k in
      let all' = tail_bytes r.splits all in
      let r' =
        continuation-Continues 0 (bits * 64 + r.bits) r.tail all' (omega (arith, r.six)) r.later in
      let (value, end) = continuation_end_iff _ c r'.tail behind r'.later in
      ground (arith, r.splits, r.six, r'.splits, r'.six, value, end)

  Spells-four :
      first ≡ 0xf0 + bits
      → bits < 8
      → AllBytes rest
      → 0x10000 ≤ c
      → continuation 3 bits rest ≡ some (c, behind)
      → Spells first rest c behind
  unfolding encode_codepoint
  Spells-four e h all lo k =
      let r = continuation-Continues 2 bits rest all (omega arith) k in
      let all' = tail_bytes r.splits all in
      let cp = bits * 64 + r.bits in
      let r' = continuation-Continues 1 cp r.tail all' (omega (arith, r.six)) r.later in
      let all'' = tail_bytes r'.splits all' in
      let cp' = cp * 64 + r'.bits in
      let r'' =
        continuation-Continues 0 cp' r'.tail all'' (omega (arith, r.six, r'.six)) r'.later in
      let (value, end) = continuation_end_iff _ c r''.tail behind r''.later in
      ground (arith, r.splits, r.six, r'.splits, r'.six, r''.splits, r''.six, value, end)

-- One step that is accepted reads one printable code point.
pub next_codepoint_sound :
    (first : ℕ) (rest : Bytes) (c : ℕ) (behind : Bytes)
    → AllBytes (first ∷ rest)
    → next_codepoint (first ∷ rest) ≡ some (c, behind)
    → IsPrintable c × Spells first rest c behind
unfolding refuses_codepoint
next_codepoint_sound first rest c behind (h, all) e =
    let r = next_codepoint-Reads first rest e in
    let p = kept-IsPrintable r.size c r.kept in
    elim (lead_shape first r.bits r.size h r.led) [
      | one s b small ↦ (p, Spells-one first r.bits c rest behind b small (rw s at r.continued))
      | two s b small ↦ (
        p,
        Spells-two first r.bits c rest behind b small all (ground (arith, r.kept))
            (rw s at r.continued),
      )
      | three s b small ↦ (
        p,
        Spells-three first r.bits c rest behind b small all (ground (arith, r.kept))
            (rw s at r.continued),
      )
      | four s b small ↦ (
        p,
        Spells-four first r.bits c rest behind b small all (ground (arith, r.kept))
            (rw s at r.continued),
      )
    ]
