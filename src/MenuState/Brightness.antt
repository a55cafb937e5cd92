-- ===== src/MenuState/Brightness.antt =====
-- The numbers of the brightness functions of src/menu_state.cpp: `brightness_raw_value`, the test of
-- `set_brightness_percent`, and the step that `load_brightness` takes a raw value for. The reading
-- and writing of the device are left out.
use nes_deck.Prelude.{
  ℕ, zero, suc, ◌+◌, ◌-◌, ◌*◌, ◌/◌, ◌%◌, ◌^◌, ◌≤◌, ◌<◌, min, max, ◌≡◌, ap, ◌∙◌, arith, Bool, false,
  ◌||◌, ltb, ◌==◌, ◌!=◌, if◌then◌else◌,
}
use native.Mathlib.Nat.{le-div_iff_mul-le, div-lt_iff_lt-mul}

-- The product is of 64 bits, and the quotient is cast to 32.
unfoldable pub brightness_raw_value : ℕ → ℕ → ℕ
brightness_raw_value percent maximum =
    if maximum == 0
    then 0
    else max 1 (min maximum ((percent * maximum + 50) % 2 ^ 64 / 100 % 2 ^ 32))

-- The percentages that `set_brightness_percent` refuses.
unfoldable pub refuses_brightness : ℕ → ℕ → Bool
refuses_brightness maximum percent =
    maximum == 0 || ltb percent 10 || ltb 100 percent || percent % 10 != 0

-- The percentage for a raw value that the device holds, where there is no state file.
unfoldable pub observed_percent : ℕ → ℕ → ℕ
observed_percent current maximum =
    let observed = (current * 100 + maximum / 2) % 2 ^ 64 / maximum % 2 ^ 32 in
    max 10 (min 100 ((observed + 5) % 2 ^ 32 / 10 * 10))

-- A brightness that can be set is never dark and never above what the device takes.
pub brightness_raw_value-bounds :
    (percent maximum : ℕ)
    → refuses_brightness maximum percent ≡ false
    → (1 ≤ brightness_raw_value percent maximum) × (brightness_raw_value percent maximum ≤ maximum)
unfolding brightness_raw_value refuses_brightness
brightness_raw_value-bounds percent maximum h = ground (arith, h)

mul_le : (a b c : ℕ) → a ≤ b → a * c ≤ b * c
mul_le a b zero h = omega arith
mul_le a b (suc c) h = omega (arith, mul_le a b c h)

times_ten : (j maximum : ℕ) → 10 * j * maximum ≡ 10 * (j * maximum)
times_ten j maximum = omega arith

five_more : (k maximum : ℕ) → k * maximum + 5 * maximum ≡ (k + 5) * maximum
five_more k maximum = omega arith

window : (j maximum : ℕ) → 1 ≤ j → (10 * j - 5) * maximum + 5 * maximum ≡ 10 * (j * maximum)
window j maximum h =
    let e : 10 * j - 5 + 5 ≡ 10 * j = omega arith in
    five_more (10 * j - 5) maximum ∙ ap (λ (t : ℕ). t * maximum) e ∙ times_ten j maximum

-- Within a hundredth of the exact product.
raw_near :
    (j maximum : ℕ)
    → 1 ≤ j
    → j ≤ 10
    → 12 ≤ maximum
    → maximum < 2 ^ 32
    → (10 * (j * maximum) ≤ 100 * brightness_raw_value (10 * j) maximum + 49)
      × (100 * brightness_raw_value (10 * j) maximum ≤ 10 * (j * maximum) + 50)
unfolding brightness_raw_value
raw_near j maximum lo hi big fits =
    ground (arith, times_ten j maximum, mul_le j 10 maximum hi, mul_le 1 j maximum lo)

-- On a device of at least twelve levels, the raw value that is written for a step of ten percent is
-- taken for that step again where there is no state file.
pub observed_percent-brightness_raw_value :
    (j maximum : ℕ)
    → 1 ≤ j
    → j ≤ 10
    → 12 ≤ maximum
    → maximum < 2 ^ 32
    → observed_percent (brightness_raw_value (10 * j) maximum) maximum ≡ 10 * j
unfolding observed_percent
observed_percent-brightness_raw_value j maximum lo hi big fits =
    let (below, above) = raw_near j maximum lo hi big fits in
    let n = brightness_raw_value (10 * j) maximum * 100 + maximum / 2 in
    let low : 10 * j - 5 ≤ n / maximum =
      (le-div_iff_mul-le {k = maximum} {x = 10 * j - 5} {y = n} (omega arith)).1
        (omega (arith, window j maximum lo)) in
    let high : n / maximum < 10 * j + 5 =
      (div-lt_iff_lt-mul {k = maximum} {x = n} {y = 10 * j + 5} (omega arith)).1
        (omega (arith, five_more (10 * j) maximum, times_ten j maximum)) in
    let whole : n % 2 ^ 64 ≡ n = omega (arith, mul_le j 10 maximum hi) in
    rw whole (omega (arith, low, high))
