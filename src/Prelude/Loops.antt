-- ===== src/Prelude/Loops.antt =====
-- Counted loops on a state, and what a loop has painted of a memory: an address that it has written
-- holds the value that belongs there, and another is as it was.
use Prim.Native.Nat.{ℕ, zero, suc, ◌<◌}
use mathlib.Core.Path.{◌≡◌, refl, sym, subst, ◌∙◌}
use mathlib.Core.Logic.{◌⊎◌, inl, inr}
use native.Mathlib.Omega.{arith}
use nes_deck.Prelude.Tests.{◌==◌, if◌then◌else◌, Bool-cases}

-- `for (i = 0; i < count; ++i)`.
unfoldable pub for_each {ℓ} : {S : Type ℓ} → ℕ → (ℕ → S → S) → S → S
for_each zero body s = s
for_each (suc count) body s = body count (for_each count body s)

-- A memory of words, by their index.
abbrev pub Memory : Type 0
Memory = ℕ → ℕ

unfoldable pub write : Memory → ℕ → ℕ → Memory
write memory i word = λ a. if a == i then word else memory a

-- One address after a change that writes those of `P`, to what `value` says of them.
abbrev pub PaintedAt : (ℕ → Type 0) → Memory → Memory → Memory → ℕ → Type 0
PaintedAt P value before after a = (P a × (after a ≡ value a)) ⊎ ((P a → ⊥) × (after a ≡ before a))

abbrev pub Painted : (ℕ → Type 0) → Memory → Memory → Memory → Type 0
Painted P value before after = (a : ℕ) → PaintedAt P value before after a

-- The addresses of one of the rounds.
abbrev pub SomeRound : ℕ → (ℕ → ℕ → Type 0) → ℕ → Type 0
SomeRound count P a = (i : ℕ) × (i < count) × P i a

pub write-Painted :
    (value before : Memory) (i word : ℕ)
    → value i ≡ word
    → Painted (λ a. a ≡ i) value before (write before i word)
unfolding write
write-Painted value before i word e a = elim (Bool-cases (a == i)) [
  | inl here ↦ let at : a ≡ i = ground (arith, here) in inl (at, ground (arith, here, e, at))
  | inr other ↦ inr (λ at. absurd (ground (arith, other, at)), ground (arith, other))
]

round_of : (P : ℕ → Type 0) (i n : ℕ) → i < suc n → P i → (i < n) ⊎ P n
round_of P i n below p = elim (Bool-cases (i == n)) [
  | inl last ↦ let e : i ≡ n = ground (arith, last) in inr (subst P e p)
  | inr other ↦ inl (ground (arith, other, below))
]

-- A loop paints what its rounds paint.
pub for_each-Painted :
    (P : ℕ → ℕ → Type 0) (value : Memory) (count : ℕ) (body : ℕ → Memory → Memory)
    → ((i : ℕ) → i < count → (m : Memory) → Painted (P i) value m (body i m))
    → (m : Memory) → Painted (SomeRound count P) value m (for_each count body m)
unfolding for_each
for_each-Painted P value zero body paints m a = inr (λ (i, below, p). absurd (omega arith), refl)
for_each-Painted P value (suc n) body paints m a =
    let before = for_each-Painted P value n body (λ i below m. paints i (omega arith) m) m a in
    elim (paints n (omega arith) (for_each n body m) a) [
      | inl (p, e) ↦ inl ((n, omega arith, p), e)
      | inr (free, same) ↦ elim before [
        | inl ((i, below, p), e) ↦ inl ((i, omega arith, p), same ∙ e)
        | inr (never, e) ↦ inr (
          λ (i, below, p). elim (round_of (λ i. P i a) i n below p) [
            | inl less ↦ never (i, less, p)
            | inr last ↦ free last
          ],
          same ∙ e,
        )
      ]
    ]

-- The same addresses, said otherwise.
pub Painted-same :
    {P Q : ℕ → Type 0} {value before after : Memory}
    → ((a : ℕ) → P a → Q a)
    → ((a : ℕ) → Q a → P a)
    → Painted P value before after
    → Painted Q value before after
Painted-same to from painted a = elim (painted a) [
  | inl (p, e) ↦ inl (to a p, e)
  | inr (free, e) ↦ inr (λ q. free (from a q), e)
]

-- Two changes that paint the same addresses alike.
pub Painted-unique :
    {P Q : ℕ → Type 0} {value before after after' : Memory}
    → ((a : ℕ) → P a → Q a)
    → ((a : ℕ) → Q a → P a)
    → Painted P value before after
    → Painted Q value before after'
    → (a : ℕ) → after a ≡ after' a
Painted-unique to from one other a = elim (one a) [
  | inl (p, e) ↦ elim (other a) [ inl (q, f) ↦ e ∙ sym f | inr (free, f) ↦ absurd (free (to a p)) ]
  | inr (free, e) ↦ elim (other a) [
    | inl (q, f) ↦ absurd (free (from a q))
    | inr (free', f) ↦ e ∙ sym f
  ]
]
