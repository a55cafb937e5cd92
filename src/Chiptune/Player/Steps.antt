-- ===== src/Chiptune/Player/Steps.antt =====
-- The files of a list in turn, forward and backward, one step at a time.
use native.Mathlib.Nat.{mod-lt, mod-add-mod, mod-eq_of_lt}
use nes_deck.Prelude.{
  ℕ, zero, suc, ◌+◌, ◌-◌, ◌%◌, ◌<◌, ◌≡◌, sym, ap, ◌∙◌, arith, inl, inr, Bool, true, false,
  Bool-cases, ◌==◌, if◌then◌else◌, round,
}
use nes_deck.Chiptune.Player.Order.{turn}

-- Once around the list by one file: the next, and the first after the last; or the previous, and the
-- last before the first.
unfoldable pub step : ℕ → Bool → ℕ → ℕ
step count false index = if index + 1 == count then 0 else index + 1
step count true index = if index == 0 then count - 1 else index - 1

unfoldable pub steps : ℕ → Bool → ℕ → ℕ → ℕ
steps count backward zero index = index
steps count backward (suc n) index = step count backward (steps count backward n index)

-- One more than a number, and its rest.
suc-mod :
    (x count : ℕ)
    → 0 < count
    → (suc x % count ≡ (if x % count + 1 == count then 0 else x % count + 1))
suc-mod x count low =
    let below = mod-lt x low in
    let e : suc x % count ≡ (x % count + 1) % count =
      ap (λ n. n % count) (omega arith) ∙ sym (mod-add-mod x count 1) in
    e ∙ ground (arith, below, round (x % count + 1) count low (omega (arith, below)))

mod-zero : (count : ℕ) → 0 < count → 0 % count ≡ 0
mod-zero count low = mod-eq_of_lt low

-- From the rests of two numbers that follow each other.
backward_step :
    (count current r r' : ℕ)
    → current < count
    → r < count
    → r' ≡ (if r + 1 == count then 0 else r + 1)
    → (current + count - r') % count ≡ step count true ((current + count - r) % count)
unfolding step
backward_step count current r r' inside below e = elim (Bool-cases (r + 1 == count)) [
  | inl full ↦ ground (
    arith,
    full,
    e,
    round (current + count) count (omega arith) (omega arith),
    round (current + count - r) count (omega arith) (omega arith),
  )
  | inr less ↦ ground (
    arith,
    less,
    e,
    round (current + count - r - 1) count (omega arith) (omega arith),
    round (current + count - r) count (omega arith) (omega arith),
  )
]

turn-zero :
    (count current : ℕ) (backward : Bool)
    → current < count
    → turn count current backward 0 ≡ current
turn-zero count current true inside =
    ground (arith, mod-zero count, round (current + count) count (omega arith) (omega arith))
turn-zero count current false inside = ap (λ n. n % count) (omega arith) ∙ mod-eq_of_lt inside

turn-step :
    (count current : ℕ) (backward : Bool) (n : ℕ)
    → current < count
    → turn count current backward (suc n) ≡ step count backward (turn count current backward n)
unfolding step
turn-step count current false n inside =
    ap (λ i. i % count) (omega arith) ∙ suc-mod (current + n) count (omega arith)
turn-step count current true n inside =
    backward_step count current (n % count) (suc n % count) inside (mod-lt n (omega arith))
      (suc-mod n count (omega arith))

pub turn-steps :
    (count current : ℕ) (backward : Bool) (n : ℕ)
    → current < count
    → turn count current backward n ≡ steps count backward n current
unfolding steps
turn-steps count current backward zero inside = turn-zero count current backward inside
turn-steps count current backward (suc n) inside =
    turn-step count current backward n inside
    ∙ ap (step count backward) (turn-steps count current backward n inside)
