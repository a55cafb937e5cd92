-- ===== src/Sram/RoundTrip.antt =====
-- The decoder reads back what the encoder wrote.
use nes_deck.Prelude.{
  ℕ, zero, suc, ◌+◌, ◌-◌, ◌≤◌, ◌<◌, ◌≡◌, ◌≢◌, refl, sym, ap, ◌∙◌, leb, ◌||◌, [], ◌∷◌, ◌++◌, some,
  arith, ◌⊎◌, inl, inr, false, Bool-cases, ◌==◌, length, length-append, length-replicate,
  append-nil, append_assoc, drop, replicate, Bytes, Option-cases,
}
use nes_deck.Sram.{
  put_run, run_length, decode_loop, decode, refused, written, encode_loop, encode, choose_tag,
}
use nes_deck.Sram.Runs.{Run, Run-at, length-Run}

-- A byte that is not the tag stands for itself.
decode_loop_plain :
    (tag size value : ℕ) (rest out : Bytes)
    → value ≢ tag
    → length out < size
    → decode_loop tag size (value ∷ rest) out ≡ decode_loop tag size rest (out ++ value ∷ [])
unfolding decode_loop
decode_loop_plain tag size value [] out ne fits = ground arith
decode_loop_plain tag size value (a ∷ []) out ne fits = ground arith
decode_loop_plain tag size value (a ∷ b ∷ rest) out ne fits = ground arith

decode_loop_literal :
    (n : ℕ) (tag size value : ℕ) (rest out : Bytes)
    → value ≢ tag
    → length out + n ≤ size
    → decode_loop tag size (replicate n value ++ rest) out
      ≡ decode_loop tag size rest (out ++ replicate n value)
decode_loop_literal zero tag size value rest out ne fits = rw append-nil
decode_loop_literal (suc n) tag size value rest out ne fits =
    decode_loop_plain tag size value (replicate n value ++ rest) out ne (omega arith)
    ∙ decode_loop_literal n tag size value rest (out ++ value ∷ []) ne
        (omega (arith, length-append out (value ∷ [])))
    ∙ rw append_assoc

decode_loop_marked :
    (tag size value count : ℕ) (rest out : Bytes)
    → length out + (count + 1) ≤ size
    → decode_loop tag size (tag ∷ value ∷ count ∷ rest) out
      ≡ decode_loop tag size rest (out ++ replicate (count + 1) value)
unfolding decode_loop
decode_loop_marked tag size value count rest out fits = ground arith

-- What a packet for `suc k` bytes looks like.
packet_shape :
    (room tag value k : ℕ) {packet : Bytes}
    → k < 256
    → put_run room tag value (suc k) ≡ some packet
    → (packet ≡ tag ∷ value ∷ k ∷ []) ⊎ ((value ≢ tag) × (packet ≡ replicate (suc k) value))
unfolding put_run
packet_shape room tag value k h e = elim (Bool-cases (leb 4 (suc k) || value == tag)) [
  | inl marked ↦ inl (ground arith)
  | inr literal ↦ inr (ground arith, ground arith)
]

decode_loop_packet :
    (room tag size value k : ℕ) {packet : Bytes} (rest out : Bytes)
    → k < 256
    → put_run room tag value (suc k) ≡ some packet
    → length out + suc k ≤ size
    → decode_loop tag size (packet ++ rest) out
      ≡ decode_loop tag size rest (out ++ replicate (suc k) value)
decode_loop_packet room tag size value k {packet} rest out h e fits =
    elim (packet_shape room tag value k h e) [
      | inl marked ↦ rw marked (
          decode_loop_marked tag size value k rest out (omega arith)
          ∙ (let e : k + 1 ≡ suc k = omega arith in rw e))
      | inr (ne, literal) ↦ rw literal (decode_loop_literal (suc k) tag size value rest out ne fits)
    ]

-- One turn of the loop that did not refuse.
encode_loop_turn :
    (fuel capacity tag value : ℕ) (rest out : Bytes) {o : Bytes}
    → encode_loop (suc fuel) capacity tag (value ∷ rest) out ≡ written o
    → (packet : Bytes) × (put_run (capacity - length out) tag value (run_length value 1 rest)
        ≡ some packet)
      × (encode_loop fuel capacity tag
            (drop (run_length value 1 rest) (value ∷ rest))
            (out ++ packet)
          ≡ written o)
unfolding encode_loop
encode_loop_turn fuel capacity tag value rest out h =
    elim (Option-cases (put_run (capacity - length out) tag value (run_length value 1 rest))) [
      | inl e ↦ absurd (cc (rw (e, encode_loop) at h))
      | inr (packet, e) ↦ (packet, e, rw (e, encode_loop) at h)
    ]

-- What the loop appends decodes to the input that it had left.
record Decodes (tag : ℕ) (rest out o : Bytes) : Type 0 where
  body : Bytes
  appended : o ≡ out ++ body
  decoded :
      (size : ℕ) (acc : Bytes)
      → length acc + length rest ≡ size
      → decode_loop tag size body acc ≡ some (acc ++ rest)

-- A packet for the run in front, with a body behind it that decodes to what is left.
decode_turn :
    (room tag value size : ℕ) (rest packet body acc : Bytes)
    → Run value rest
    → put_run room tag value (run_length value 1 rest) ≡ some packet
    → ((size : ℕ) (acc : Bytes)
        → length acc + length (drop (run_length value 1 rest) (value ∷ rest)) ≡ size
        → decode_loop tag size body acc
          ≡ some (acc ++ drop (run_length value 1 rest) (value ∷ rest)))
    → length acc + suc (length rest) ≡ size
    → decode_loop tag size (packet ++ body) acc ≡ some (acc ++ value ∷ rest)
decode_turn room tag value size rest packet body acc r put later fits =
    let k = r.beyond in
    let run = value ∷ replicate k value in
    let left : length (acc ++ run) + length (drop k rest) ≡ size =
      omega (arith, length-append acc run, length-replicate k value, length-Run r) in
    decode_loop_packet room tag size value k body acc r.short (rw r.measured at put)
      (omega (arith, length-Run r))
    ∙ later size (acc ++ run) (rw r.measured left)
    ∙ rw r.measured
        (ap some (append_assoc acc run (drop k rest) ∙ ap (λ t. acc ++ value ∷ t) (sym r.splits)))

encode_loop-Decodes :
    (fuel capacity tag : ℕ) (rest out : Bytes) {o : Bytes}
    → encode_loop fuel capacity tag rest out ≡ written o
    → Decodes tag rest out o
unfolding encode_loop
encode_loop-Decodes fuel capacity tag [] out h = record {
  body = [];
  appended = ground (arith, append-nil out);
  decoded = λ size acc e. unfold decode_loop in rw append-nil (ground arith);
}
encode_loop-Decodes zero capacity tag (value ∷ rest) out h = cc
encode_loop-Decodes (suc fuel) capacity tag (value ∷ rest) out h =
    let (packet, put, later) = encode_loop_turn fuel capacity tag value rest out h in
    let run = Run-at value rest in
    let tail = encode_loop-Decodes fuel capacity tag _ (out ++ packet) later in
    record {
      body = packet ++ tail.body;
      appended = tail.appended ∙ append_assoc out packet tail.body;
      decoded = λ size acc e.
          decode_turn (capacity - length out) tag value size rest packet tail.body acc run put
            tail.decoded e;
    }

encode_cons :
    (x : ℕ) (xs : Bytes) (capacity : ℕ) {out : Bytes}
    → encode false (x ∷ xs) capacity ≡ written out
    → encode_loop
        (suc (length xs))
        capacity
        (choose_tag (x ∷ xs))
        (x ∷ xs)
        (choose_tag (x ∷ xs) ∷ [])
      ≡ written out
unfolding encode
encode_cons x xs capacity h = ground arith

encode_nil : (capacity : ℕ) → encode false [] capacity ≡ refused []
unfolding encode
encode_nil capacity = refl

decode_cons :
    (tag n : ℕ) (body : Bytes) → decode false (tag ∷ body) (suc n) ≡ decode_loop tag (suc n) body []
unfolding decode
decode_cons tag n body = ground arith

-- Whatever input is encoded into whatever room: if the encoder reports success, the decoder, given
-- what was written and the input's size, returns the input.
pub decode-encode :
    (input : Bytes) (capacity : ℕ) {out : Bytes}
    → encode false input capacity ≡ written out
    → decode false out (length input) ≡ some input
decode-encode [] capacity h = cc (encode_nil capacity)
decode-encode (x ∷ xs) capacity h =
    let tag = choose_tag (x ∷ xs) in
    let d =
      encode_loop-Decodes (suc (length xs)) capacity tag (x ∷ xs) (tag ∷ [])
        (encode_cons x xs capacity h) in
    rw d.appended
      (decode_cons tag (length xs) d.body ∙ d.decoded (suc (length xs)) [] (omega arith))
