-- ===== src/Runtime/Audio/Copy.antt =====
-- Buffers by their elements: what a copy leaves at each index, and what the queue holds.
use nes_deck.Prelude.Elements.{at_index}
use nes_deck.Prelude.{
  ℕ, zero, suc, ◌+◌, ◌-◌, ◌≤◌, ◌<◌, ◌≡◌, refl, ◌∙◌, arith, List, [], ◌∷◌, ltb, leb, ◌&&◌,
  if◌then◌else◌, length, length-set, get_or, set,
}
use nes_deck.Runtime.Audio.{Samples, copy_to}

pub get_or-set :
    (xs : List ℕ) (i j v : ℕ)
    → i < length xs
    → get_or (set xs i v) j 0 ≡ (if leb i j && leb j i then v else get_or xs j 0)
get_or-set [] i j v h = absurd (omega arith)
get_or-set (x ∷ xs) zero zero v h = ground arith
get_or-set (x ∷ xs) zero (suc j) v h = ground arith
get_or-set (x ∷ xs) (suc i) zero v h = ground arith
get_or-set (x ∷ xs) (suc i) (suc j) v h = ground (arith, get_or-set xs i j v)

get_or-cons :
    (x : ℕ) (xs : List ℕ) (k : ℕ)
    → get_or (x ∷ xs) k 0 ≡ (if leb k 0 then x else get_or xs (k - 1) 0)
get_or-cons x xs zero = ground arith
get_or-cons x xs (suc k) = ground (arith, at_index xs (k) (suc k - 1) (omega arith))

pub length-copy_to :
    (buffer : List ℕ) (i : ℕ) (xs : Samples) → length (copy_to buffer i xs) ≡ length buffer
unfolding copy_to
length-copy_to buffer i [] = refl
length-copy_to buffer i (x ∷ xs) =
    length-copy_to (set buffer i x) (i + 1) xs ∙ length-set buffer i x

pub get_or-copy_to :
    (buffer : List ℕ) (i : ℕ) (xs : Samples) (j : ℕ)
    → i + length xs ≤ length buffer
    → get_or (copy_to buffer i xs) j 0
      ≡ (if leb i j && ltb j (i + length xs) then get_or xs (j - i) 0 else get_or buffer j 0)
unfolding copy_to
get_or-copy_to buffer i [] j h = ground arith
get_or-copy_to buffer i (x ∷ xs) j h =
    get_or-copy_to (set buffer i x) (i + 1) xs j (omega (arith, length-set buffer i x))
    ∙ ground (
      arith,
      get_or-set buffer i j x (omega arith),
      get_or-cons x xs (j - i),
      at_index xs (j - (i + 1)) (j - i - 1) (omega arith),
    )
