-- ===== src/Sram/Runs.antt =====
-- The runs that `run_length` measures, and what a packet for one does to the decoder.
use nes_deck.Prelude.{
  ℕ, suc, ◌+◌, ◌≤◌, ◌<◌, ◌≡◌, refl, [], ◌∷◌, ◌++◌, arith, inl, inr, Bool-cases, ◌&&◌, ltb, ◌==◌,
  length, length-append, length-replicate, drop, replicate, Bytes, ap,
}
use nes_deck.Sram.{run_length}

-- The run that begins at `value ∷ rest` has `suc beyond` bytes.
pub record Run (value : ℕ) (rest : Bytes) : Type 0 where
  pub beyond : ℕ
  pub measured : run_length value 1 rest ≡ suc beyond
  pub splits : rest ≡ replicate beyond value ++ drop beyond rest
  pub short : beyond < 256

run_length_split :
    (value n : ℕ) (rest : Bytes)
    → n ≤ 256
    → (k : ℕ) × (run_length value n rest ≡ n + k)
      × (rest ≡ replicate k value ++ drop k rest)
      × (n + k ≤ 256)
unfolding run_length
run_length_split value n [] h = (0, omega arith, refl, omega arith)
run_length_split value n (x ∷ xs) h = elim (Bool-cases (ltb n 256 && x == value)) [
  | inl more ↦
      let (k, e, s, b) = run_length_split value (n + 1) xs (ground arith) in
      (suc k, rw more (omega (arith, e)), ground (arith, s), omega arith)
  | inr stop ↦ (0, rw stop (omega arith), refl, omega arith)
]

pub Run-at : (value : ℕ) (rest : Bytes) → Run value rest
Run-at value rest =
    let (k, e, s, b) = run_length_split value 1 rest (omega arith) in
    record { beyond = k; measured = omega (arith, e); splits = s; short = omega arith }

pub length-Run :
    {value : ℕ} {rest : Bytes} (r : Run value rest)
    → r.beyond + length (drop r.beyond rest) ≡ length rest
length-Run {value} {rest} r = omega (
  arith,
  ap length r.splits,
  length-append (replicate r.beyond value) (drop r.beyond rest),
  length-replicate r.beyond value,
)
