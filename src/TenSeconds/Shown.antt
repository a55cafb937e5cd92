-- ===== src/TenSeconds/Shown.antt =====
-- The number that the five characters of the timer show.
use nes_deck.Prelude.{
  ℕ, ◌+◌, ◌-◌, ◌*◌, ◌/◌, ◌%◌, ◌≤◌, ◌≡◌, refl, min, arith, Bool-cases, inl, inr, [], ◌∷◌, ◌++◌, ltb,
  Bytes,
}
use nes_deck.TenSeconds.{two_digits, ten_seconds_format}

abbrev IsDigit : ℕ → Type 0
IsDigit c = (b'0' ≤ c) × (c ≤ b'9')

-- Five characters, the digits around a point, that spell a number of centiseconds.
pub record Shows (text : Bytes) (n : ℕ) : Type 0 where
  pub a : ℕ
  pub b : ℕ
  pub c : ℕ
  pub d : ℕ
  pub spelled : text ≡ a ∷ b ∷ b'.' ∷ c ∷ d ∷ []
  pub a_digit : IsDigit a
  pub b_digit : IsDigit b
  pub c_digit : IsDigit c
  pub d_digit : IsDigit d
  pub value : n ≡ (((a - b'0') * 10 + (b - b'0')) * 10 + (c - b'0')) * 10 + (d - b'0')

shows : (n : ℕ) → n ≤ 9999 → Shows (two_digits (n / 100) ++ (b'.' ∷ two_digits (n % 100))) n
shows n small = record {
  a = b'0' + n / 100 / 10;
  b = b'0' + n / 100 % 10;
  c = b'0' + n % 100 / 10;
  d = b'0' + n % 100 % 10;
  spelled = refl;
  a_digit = (omega arith, omega arith);
  b_digit = (omega arith, omega arith);
  c_digit = (omega arith, omega arith);
  d_digit = (omega arith, omega arith);
  value = omega arith;
}

-- Any number of centiseconds is shown in five characters, two digits on each side of a point, which
-- spell it, or 99.99 where it is larger.
pub ten_seconds_format-Shows : (n : ℕ) → Shows (ten_seconds_format n) (min 9999 n)
unfolding ten_seconds_format
ten_seconds_format-Shows n = elim (Bool-cases (ltb 9999 n)) [
  | inl large ↦
      let e : min 9999 n ≡ 9999 = ground (arith, large) in rw (large, e) (shows 9999 (omega arith))
  | inr small ↦
      let e : min 9999 n ≡ n = ground (arith, small) in
      rw (small, e) (shows n (ground (arith, small)))
]
