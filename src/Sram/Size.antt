-- ===== src/Sram/Size.antt =====
-- How much the encoder writes, and how much room is enough.
use native.Mathlib.Nat.{mod-eq_of_lt}
use nes_deck.Prelude.{
  ℕ, zero, suc, ◌+◌, ◌-◌, ◌*◌, ◌%◌, ◌^◌, ◌≤◌, ◌<◌, ◌≡◌, refl, subst, if◌then◌else◌, sym, ◌∙◌, [],
  ◌∷◌, ◌++◌, Option, none, some, arith, inl, inr, Bool, true, false, Bool-cases, ◌==◌, ◌||◌, leb,
  length, length-append, length-replicate, drop, replicate, Bytes, Option-cases,
}
use nes_deck.Sram.{
  Encoded, put_run, stalled, refused, written, encode_loop, encode, choose_tag,
  maximum_encoded_size,
}
use nes_deck.Sram.Runs.{Run, Run-at, length-Run}

-- A packet fits in the room, and room for three bytes per input byte is enough for one.
length-put_run :
    (room tag value n : ℕ) {packet : Bytes}
    → put_run room tag value n ≡ some packet
    → length packet ≤ room
unfolding put_run
length-put_run room tag value n h = ground (arith, length-replicate n value)

put_run-some :
    (room tag value n : ℕ)
    → 1 ≤ n
    → 3 * n ≤ room
    → (packet : Bytes) × (put_run room tag value n ≡ some packet) × (length packet ≤ 3 * n)
unfolding put_run
put_run-some room tag value n one fits = elim (Bool-cases (leb 4 n || value == tag)) [
  | inl marked ↦ (tag ∷ value ∷ ((n - 1) % 2 ^ 8) ∷ [], rw marked (ground arith), omega arith)
  | inr literal ↦
      (replicate n value, rw literal (ground arith), omega (arith, length-replicate n value))
]

-- One turn of the loop, by the packet for the run in front.
encode_loop_turn :
    (fuel capacity tag value : ℕ) (rest out : Bytes) (r : Run value rest) {p : Option Bytes}
    → put_run (capacity - length out) tag value (suc r.beyond) ≡ p
    → encode_loop (suc fuel) capacity tag (value ∷ rest) out ≡ elim p [
      | none ↦ refused out
      | some packet ↦ encode_loop fuel capacity tag (drop r.beyond rest) (out ++ packet)
    ]
unfolding encode_loop
encode_loop_turn fuel capacity tag value rest out r e = ground (arith, r.measured, e)

-- With room for three bytes per byte left and fuel for each of them, the loop ends in `written`.
encode_loop-written :
    (fuel capacity tag : ℕ) (rest out : Bytes)
    → length rest ≤ fuel
    → length out + 3 * length rest ≤ capacity
    → (o : Bytes) × (encode_loop fuel capacity tag rest out ≡ written o)
      × (length o ≤ length out + 3 * length rest)
unfolding encode_loop
encode_loop-written fuel capacity tag [] out enough fits = (out, ground arith, omega arith)
encode_loop-written zero capacity tag (value ∷ rest) out enough fits = absurd (omega arith)
encode_loop-written (suc fuel) capacity tag (value ∷ rest) out enough fits =
    let r = Run-at value rest in
    let (packet, put, small) =
      put_run-some (capacity - length out) tag value (suc r.beyond) (omega arith)
        (omega (arith, length-Run r)) in
    let (o, done, size) =
      encode_loop-written fuel capacity tag (drop r.beyond rest) (out ++ packet)
        (omega (arith, length-Run r)) (omega (arith, length-Run r, length-append out packet)) in
    (
      o,
      encode_loop_turn fuel capacity tag value rest out r put ∙ done,
      omega (arith, length-Run r, length-append out packet),
    )

-- What a call may leave behind: it ends by itself, and what it has put into the output buffer stays
-- inside it; on success that is not empty.
abbrev pub Fits : ℕ → Encoded → Type 0
Fits capacity stalled = ⊥
Fits capacity (refused out) = length out ≤ capacity
Fits capacity (written out) = (0 < length out) × (length out ≤ capacity)

encode_loop-Fits :
    (fuel capacity tag : ℕ) (rest out : Bytes)
    → length rest ≤ fuel
    → 0 < length out
    → length out ≤ capacity
    → Fits capacity (encode_loop fuel capacity tag rest out)
unfolding encode_loop
encode_loop-Fits fuel capacity tag [] out enough some_byte fits = (some_byte, fits)
encode_loop-Fits zero capacity tag (value ∷ rest) out enough some_byte fits = absurd (omega arith)
encode_loop-Fits (suc fuel) capacity tag (value ∷ rest) out enough some_byte fits =
    let r = Run-at value rest in
    elim (Option-cases (put_run (capacity - length out) tag value (suc r.beyond))) [
      | inl e ↦
          subst (Fits capacity) (sym (encode_loop_turn fuel capacity tag value rest out r e)) fits
      | inr (packet, e) ↦
          subst (Fits capacity) (sym (encode_loop_turn fuel capacity tag value rest out r e)) (
            encode_loop-Fits fuel capacity tag (drop r.beyond rest) (out ++ packet)
              (omega (arith, length-Run r)) (omega (arith, some_byte, length-append out packet))
              (omega (arith, length-put_run _ _ _ _ e, length-append out packet)))
    ]

choose-Fits :
    (capacity : ℕ) (b : Bool) (p q : Encoded)
    → Fits capacity p
    → (b ≡ false → Fits capacity q)
    → Fits capacity (if b then p else q)
choose-Fits capacity true p q h k = h
choose-Fits capacity false p q h k = k refl

-- Whatever the encoder is given, it ends by itself, and all that it has put into the output buffer
-- by then stays inside the buffer, whether it succeeds or not; where it succeeds, it has put something.
pub encode-Fits :
    (null : Bool) (input : Bytes) (capacity : ℕ) → Fits capacity (encode null input capacity)
unfolding encode
encode-Fits null input capacity =
    choose-Fits capacity (null || length input == 0 || capacity == 0) (refused []) _ (omega arith)
      (λ some_room.
        encode_loop-Fits (length input) capacity (choose_tag input) input (choose_tag input ∷ [])
          (omega arith) (omega arith) (ground (arith, some_room)))

-- A buffer of `NesSramMaximumEncodedSize` bytes is always enough for a non-empty input, as long as
-- that product does not wrap on a `size_t` of `w` bits; no more than that is written.
pub encode-written :
    (w : ℕ) (input : Bytes) (capacity : ℕ)
    → 0 < length input
    → length input * 3 + 1 < 2 ^ w
    → maximum_encoded_size w (length input) ≤ capacity
    → (out : Bytes) × (encode false input capacity ≡ written out)
      × (length out ≤ maximum_encoded_size w (length input))
unfolding encode maximum_encoded_size
encode-written w input capacity some_input fits room =
    let whole : (length input * 3 + 1) % 2 ^ w ≡ length input * 3 + 1 = mod-eq_of_lt fits in
    let (o, done, size) =
      encode_loop-written (length input) capacity (choose_tag input) input (choose_tag input ∷ [])
        (omega arith) (omega arith) in
    (o, ground (arith, done), omega arith)
