-- ===== src/Prelude/Bits.antt =====
-- Bitwise operations at variables: the recursion on the lowest digit, and from it `|` of disjoint
-- fields and `&` with a low mask as arithmetic.
use Prim.Native.Nat.{
  ℕ, zero, suc, ◌+◌, ◌-◌, ◌*◌, ◌/◌, ◌%◌, ◌^◌, ◌≤◌, ◌<◌, min, max, bit_and, bit_or, digits,
  bit_and-bitwise, bit_or-bitwise,
}
use mathlib.Core.Path.{◌≡◌, refl, ap, ◌∙◌}
use mathlib.Core.Logic.{◌⊎◌, inl, inr}
use mathlib.Core.Bool.{Bool, true, ◌&&◌}
use native.Mathlib.Nat.{pow-suc, one-le-pow, div-add-mod, div-div-eq-div-mul}
use native.Mathlib.Omega.{arith}

le_or_eq : (a n : ℕ) → a ≤ suc n → (a ≤ n) ⊎ (a ≡ suc n)
le_or_eq a n h = grind arith

lt_or_eq : (i bound : ℕ) → i < suc bound → (i < bound) ⊎ (i ≡ bound)
lt_or_eq i bound below = grind arith

-- Fuel beyond the first operand changes no digit.
module _ (z : ℕ → ℕ) (f : ℕ → ℕ → ℕ) where
  digits_settle : (n a b : ℕ) → a ≤ n → digits z f (suc n) a b ≡ digits z f n a b
  digits_settle zero zero b h = refl
  digits_settle (suc n) zero b h = refl
  digits_settle zero (suc a) b h = absurd (omega arith)
  digits_settle (suc n) (suc a) b h = rw (digits_settle n (suc a / 2) (b / 2) (omega arith))

  digits_enough : (n a b : ℕ) → a ≤ n → digits z f n a b ≡ digits z f a a b
  digits_enough zero a b h = let e : a ≡ 0 = omega arith in rw e
  digits_enough (suc n) a b h = elim (le_or_eq a n h) [
    | inl le ↦ digits_settle n a b le ∙ digits_enough n a b le
    | inr e ↦ rw e
  ]

  digits_next :
      (a b : ℕ)
      → digits z f (suc a) (suc a) b
        ≡ digits z f (suc a / 2) (suc a / 2) (b / 2) * 2 + f (suc a % 2) (b % 2)
  digits_next a b = rw (digits_enough a (suc a / 2) (b / 2) (omega arith))

pub bit_or_digit : (a b : ℕ) → bit_or a b ≡ bit_or (a / 2) (b / 2) * 2 + max (a % 2) (b % 2)
bit_or_digit zero b = simp bit_or-bitwise (omega arith)
bit_or_digit (suc a) b = simp bit_or-bitwise (digits_next (λ y. y) max a b)

pub bit_and_digit : (a b : ℕ) → bit_and a b ≡ bit_and (a / 2) (b / 2) * 2 + min (a % 2) (b % 2)
bit_and_digit zero b = simp bit_and-bitwise (omega arith)
bit_and_digit (suc a) b = simp bit_and-bitwise (digits_next (λ y. 0) min a b)

zero-bit_or : (b : ℕ) → bit_or 0 b ≡ b
zero-bit_or b = bit_or-bitwise 0 b

zero-bit_and : (b : ℕ) → bit_and 0 b ≡ 0
zero-bit_and b = bit_and-bitwise 0 b

bit_or-zero_below : (n a : ℕ) → a ≤ n → bit_or a 0 ≡ a
bit_or-zero_below zero a h = let e : a ≡ 0 = omega arith in rw e
bit_or-zero_below (suc n) a h = elim (le_or_eq a n h) [
  | inl le ↦ bit_or-zero_below n a le
  | inr e ↦ omega (arith, bit_or_digit a 0, bit_or-zero_below n (a / 2) (omega arith))
]

pub bit_or-zero : (a : ℕ) → bit_or a 0 ≡ a
bit_or-zero a = bit_or-zero_below a a (omega arith)

bit_and-zero_below : (n a : ℕ) → a ≤ n → bit_and a 0 ≡ 0
bit_and-zero_below zero a h = let e : a ≡ 0 = omega arith in rw e
bit_and-zero_below (suc n) a h = elim (le_or_eq a n h) [
  | inl le ↦ bit_and-zero_below n a le
  | inr e ↦ omega (arith, bit_and_digit a 0, bit_and-zero_below n (a / 2) (omega arith))
]

pub bit_and-zero : (a : ℕ) → bit_and a 0 ≡ 0
bit_and-zero a = bit_and-zero_below a a (omega arith)

double_pow : (q k : ℕ) → q * 2 ^ suc k ≡ 2 * (q * 2 ^ k)
double_pow q k = omega (arith, ap (λ (t : ℕ). q * t) (pow-suc 2 k))

-- `(q << k) | r` for an `r` of `k` bits.
pub bit_or-shifted : (k q r : ℕ) → r < 2 ^ k → bit_or (q * 2 ^ k) r ≡ q * 2 ^ k + r
bit_or-shifted zero q r h = ground (arith, bit_or-zero q)
bit_or-shifted (suc k) q r h = ground (
  arith,
  bit_or_digit (q * 2 ^ suc k) r,
  double_pow q k,
  bit_or-shifted k q (r / 2) (omega arith),
)

mod_digit : (a m : ℕ) → 0 < m → a % (2 * m) ≡ a / 2 % m * 2 + a % 2
mod_digit a m h = omega (
  arith,
  div-add-mod a (2 * m),
  div-add-mod (a / 2) m,
  ap (λ (t : ℕ). m * t) (div-div-eq-div-mul a 2 m),
)

-- `a & ((1 << k) - 1)`.
pub bit_and-mask : (k a : ℕ) → bit_and a (2 ^ k - 1) ≡ a % 2 ^ k
bit_and-mask zero a = omega (arith, bit_and-zero a)
bit_and-mask (suc k) a = ground (
  arith,
  bit_and_digit a (2 ^ suc k - 1),
  pow-suc 2 k,
  one-le-pow k 2,
  mod_digit a (2 ^ k) (omega (arith, one-le-pow k 2)),
  bit_and-mask k (a / 2),
)

-- A test that every number below a bound passes, by evaluation.
unfoldable pub all_below : ℕ → (ℕ → Bool) → Bool
all_below zero test = true
all_below (suc bound) test = all_below bound test && test bound

pub all_below_sound :
    (bound : ℕ) (test : ℕ → Bool) (i : ℕ) → all_below bound test ≡ true → i < bound → test i ≡ true
unfolding all_below
all_below_sound zero test i passed below = absurd (omega arith)
all_below_sound (suc bound) test i passed below = elim (lt_or_eq i bound below) [
  | inl lower ↦ all_below_sound bound test i (ground (arith, passed)) lower
  | inr last ↦ rw last (ground (arith, passed))
]
