-- ===== src/Runtime/Rate.antt =====
-- The number of frames that `DeckAudio::write_mono` makes of some frames where the sound device has
-- another rate, in 64 bits, and as a `size_t` of `w` bits. What is left over is carried to the next call.
use nes_deck.Prelude.{ℕ, ◌+◌, ◌*◌, ◌/◌, ◌%◌, ◌^◌, ◌≤◌, ◌<◌, ◌≡◌, arith, List, [], ◌∷◌, All}
use native.Mathlib.Nat.{
  div-add-mod, mod-lt, mod-eq_of_lt, div-lt_iff_lt-mul, mul-le-mul, mul-add, add-mul,
}

module _ (w source_rate output_rate : ℕ) where
  -- The frames of a call, and the remainder after it.
  unfoldable pub output_frames : ℕ → ℕ → ℕ × ℕ
  output_frames frames rate_remainder =
      let scaled = (frames * output_rate + rate_remainder) % 2 ^ 64 in
      (scaled / source_rate % 2 ^ w, scaled % source_rate)

  -- The frames of all calls, and the remainder after the last.
  unfoldable pub all_frames : List ℕ → ℕ → ℕ × ℕ
  all_frames [] rate_remainder = (0, rate_remainder)
  all_frames (frames ∷ calls) rate_remainder =
      let (first, r) = output_frames frames rate_remainder in
      let (rest, r') = all_frames calls r in (first + rest, r')

pub sum : List ℕ → ℕ
sum [] = 0
sum (x ∷ xs) = x + sum xs

-- Few enough frames that nothing wraps around: not their number, nor what is made of them.
pub record IsShort (w source_rate output_rate frames : ℕ) : Type 0 where
  pub few : frames < 2 ^ 31
  pub made : frames * output_rate + source_rate ≤ 2 ^ w * source_rate

-- One call loses nothing.
output_frames-exact :
    (w source_rate output_rate frames r : ℕ)
    → source_rate < 2 ^ 32
    → output_rate < 2 ^ 32
    → IsShort w source_rate output_rate frames
    → r < source_rate
    → let (made, r') = output_frames w source_rate output_rate frames r in
      (source_rate * made + r' ≡ frames * output_rate + r) × (r' < source_rate)
unfolding output_frames
output_frames-exact w source_rate output_rate frames r low high short small =
    let scaled = frames * output_rate + r in
    let a : frames ≤ 2 ^ 31 = omega (arith, short.few) in
    let b : output_rate ≤ 2 ^ 32 = omega arith in
    let product : frames * output_rate ≤ 2 ^ 31 * 2 ^ 32 = mul-le-mul a b in
    let inside : scaled < 2 ^ 64 = omega (arith, product) in
    let room : scaled < 2 ^ w * source_rate = omega (arith, short.made) in
    let whole : scaled / source_rate < 2 ^ w = (div-lt_iff_lt-mul (omega (arith, small))).1 room in
    rw (mod-eq_of_lt inside, mod-eq_of_lt whole)
      (div-add-mod scaled source_rate, mod-lt scaled (omega (arith, small)))

-- For rates of 32 bits, a `size_t` of any width, and calls of less than 2 ^ 31 frames, few enough
-- that the frames made of one fit a `size_t`: whatever the calls, the frames that are made times the
-- source's rate, with the remainder at the end, are the frames that came times the device's rate,
-- with the remainder at the beginning, and the remainder stays below the source's rate. So the sound
-- never drifts, however long it plays.
pub all_frames-exact :
    (w source_rate output_rate r : ℕ) (calls : List ℕ)
    → source_rate < 2 ^ 32
    → output_rate < 2 ^ 32
    → r < source_rate
    → All (IsShort w source_rate output_rate) calls
    → let (made, r') = all_frames w source_rate output_rate calls r in
      (source_rate * made + r' ≡ sum calls * output_rate + r) × (r' < source_rate)
unfolding all_frames sum
all_frames-exact w source_rate output_rate r [] low high small short = (omega arith, small)
all_frames-exact w source_rate output_rate r (frames ∷ calls) low high small short =
    let once = output_frames w source_rate output_rate frames r in
    let (exact, below) =
      output_frames-exact w source_rate output_rate frames r low high short.0 small in
    let (rest, below') =
      all_frames-exact w source_rate output_rate once.1 calls low high below short.1 in
    let others = all_frames w source_rate output_rate calls once.1 in
    (
      omega (
        arith,
        exact,
        rest,
        mul-add source_rate once.0 others.0,
        add-mul frames (sum calls) output_rate,
      ),
      below',
    )
