-- ===== src/Catalog/Tape.antt =====
-- The ZX Spectrum tape check of `validate_rom`: a tape is a row of blocks, each behind its size in
-- two bytes, with bytes that add up to nothing under exclusive or.
use nes_deck.Prelude.{
  ℕ, zero, suc, ◌*◌, ◌^◌, ◌≤◌, ◌≡◌, refl, sym, ap, ◌↔◌, inl, inr, arith, bit_or, bit_xor, Bool,
  true, false, not, ◌||◌, Bool-cases, [], ◌∷◌, ◌++◌, ltb, ◌==◌, if◌then◌else◌, length,
  length-append, length-take, take, drop, take-append-drop, Bytes,
}

-- `checksum ^= tape[offset + byte]` over a block.
unfoldable pub block_checksum : ℕ → Bytes → ℕ
block_checksum checksum [] = checksum
block_checksum checksum (b ∷ bs) = block_checksum (bit_xor checksum b) bs

-- The three tests on a block that claims `size` bytes of `rest`.
unfoldable pub refuses_block : ℕ → Bytes → Bool
unfolding block_checksum
refuses_block size rest =
    ltb size 2 || ltb (length rest) size || not (block_checksum 0 (take size rest) == 0)

-- The loop over `offset`, with fuel.
unfoldable pub tape_loop : ℕ → Bytes → Bool
tape_loop fuel [] = true
tape_loop zero (a ∷ rest) = false
tape_loop (suc fuel) (a ∷ []) = false
tape_loop (suc fuel) (a ∷ b ∷ rest) =
    let size = bit_or a (b * 2 ^ 8) in
    let behind = tape_loop fuel (drop size rest) in
    if refuses_block size rest then false else behind

unfoldable pub valid_tape : Bytes → Bool
valid_tape tape = tape_loop (length tape) tape

-- A block of a tape: the two bytes of its size and the bytes themselves.
pub record IsBlock (low high : ℕ) (payload : Bytes) : Type 0 where
  pub sized : length payload ≡ bit_or low (high * 2 ^ 8)
  pub two_bytes : 2 ≤ length payload
  pub balanced : block_checksum 0 payload ≡ 0

pub data IsTape : Bytes → Type 0 where
  end : IsTape []
  block :
      {low high : ℕ} {payload rest tape : Bytes}
      → IsBlock low high payload
      → IsTape rest
      → tape ≡ low ∷ high ∷ (payload ++ rest)
      → IsTape tape

take-prefix : (xs ys : Bytes) → take (length xs) (xs ++ ys) ≡ xs
take-prefix [] ys = refl
take-prefix (x ∷ xs) ys = ap (◌∷◌ x) (take-prefix xs ys)

drop-prefix : (xs ys : Bytes) → drop (length xs) (xs ++ ys) ≡ ys
drop-prefix [] ys = refl
drop-prefix (x ∷ xs) ys = drop-prefix xs ys

accepted-IsBlock :
    (a b : ℕ) (rest : Bytes)
    → refuses_block (bit_or a (b * 2 ^ 8)) rest ≡ false
    → IsBlock a b (take (bit_or a (b * 2 ^ 8)) rest)
unfolding refuses_block
accepted-IsBlock a b rest h =
    let size = bit_or a (b * 2 ^ 8) in
    record {
      sized = ground (arith, length-take size rest);
      two_bytes = ground (arith, length-take size rest);
      balanced = ground arith;
    }

tape_loop-IsTape : (fuel : ℕ) (tape : Bytes) → tape_loop fuel tape ≡ true → IsTape tape
unfolding tape_loop
tape_loop-IsTape fuel [] h = end
tape_loop-IsTape zero (a ∷ rest) h = cc
tape_loop-IsTape (suc fuel) (a ∷ []) h = cc
tape_loop-IsTape (suc fuel) (a ∷ b ∷ rest) h =
    let size = bit_or a (b * 2 ^ 8) in
    elim (Bool-cases (refuses_block size rest)) [
      | inl refused ↦ absurd (ground (arith, refused))
      | inr good ↦
          block (accepted-IsBlock a b rest good)
            (tape_loop-IsTape fuel (drop size rest) (ground (arith, good)))
            (ap (λ t. a ∷ b ∷ t) (sym (take-append-drop size rest)))
    ]

block-accepted :
    (low high : ℕ) (payload rest : Bytes)
    → IsBlock low high payload
    → (refuses_block (bit_or low (high * 2 ^ 8)) (payload ++ rest) ≡ false)
      × (drop (bit_or low (high * 2 ^ 8)) (payload ++ rest) ≡ rest)
unfolding refuses_block
block-accepted low high payload rest h = rw (← h.sized) (
  ground (arith, take-prefix payload rest, h.balanced, h.two_bytes, length-append payload rest),
  drop-prefix payload rest,
)

IsTape-tape_loop :
    (fuel : ℕ) {tape : Bytes} → length tape ≤ fuel → IsTape tape → tape_loop fuel tape ≡ true
unfolding tape_loop
IsTape-tape_loop fuel enough end = refl
IsTape-tape_loop zero enough (block {payload = payload} {rest} b t e) =
    absurd (omega (arith, ap length e))
IsTape-tape_loop (suc fuel) enough (block {low} {high} {payload} {rest} b t e) =
    let (good, left) = block-accepted low high payload rest b in
    rw e (
      rw (good, left)
        (IsTape-tape_loop fuel (omega (arith, ap length e, length-append payload rest)) t))

-- The check accepts exactly the tapes: every block has the size that stands in front of it, two
-- bytes or more, and bytes whose exclusive or is zero, and the blocks fill the file.
pub valid_tape_iff : (tape : Bytes) → (valid_tape tape ≡ true) ↔ IsTape tape
unfolding valid_tape
valid_tape_iff tape =
    (tape_loop-IsTape (length tape) tape, IsTape-tape_loop (length tape) (omega arith))
