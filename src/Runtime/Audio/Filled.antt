-- ===== src/Runtime/Audio/Filled.antt =====
-- The buffer after the two copies of `append`.
use nes_deck.Prelude.{
  ℕ, ◌+◌, ◌-◌, ◌≤◌, ◌<◌, min, ◌≡◌, ◌⊎◌, arith, ◌&&◌, List, ltb, leb, if◌then◌else◌, length,
  length-take, length-drop, take, drop, get_or,
}
use nes_deck.Runtime.Audio.{Samples, copy_to}
use nes_deck.Runtime.Audio.Copy.{get_or-copy_to, length-copy_to}
use nes_deck.Prelude.Elements.{at_index, get_or-take, get_or-drop}

-- The two copies of `append` at an index.
abbrev pub filled : List ℕ → ℕ → Samples → List ℕ
filled buffer tail xs =
    let first = min (length xs) (length buffer - tail) in
    let copied = copy_to buffer tail (take first xs) in
    if ltb first (length xs) then copy_to copied 0 (drop first xs) else copied

pub length-filled :
    (buffer : List ℕ) (tail : ℕ) (xs : Samples) → length (filled buffer tail xs) ≡ length buffer
length-filled buffer tail xs =
    let first = min (length xs) (length buffer - tail) in
    ground (
      arith,
      length-copy_to buffer tail (take first xs),
      length-copy_to (copy_to buffer tail (take first xs)) 0 (drop first xs),
    )

module _ (buffer : List ℕ) (tail : ℕ) (xs : Samples) (inside : tail < length buffer)
    (fits : length xs ≤ length buffer) where
  first_copy :
      (j : ℕ)
      → get_or (copy_to buffer tail (take (min (length xs) (length buffer - tail)) xs)) j 0 ≡ (
          if leb tail j && ltb j (tail + min (length xs) (length buffer - tail))
          then get_or xs (j - tail) 0
          else get_or buffer j 0)
  first_copy j =
      let first = min (length xs) (length buffer - tail) in
      ground (
        arith,
        length-take first xs,
        get_or-copy_to buffer tail (take first xs) j,
        get_or-take first xs (j - tail),
      )

  second_copy :
      (j : ℕ)
      → get_or (filled buffer tail xs) j 0 ≡ (
          if ltb j (tail + length xs - length buffer)
          then get_or xs (min (length xs) (length buffer - tail) + j) 0
          else get_or (copy_to buffer tail (take (min (length xs) (length buffer - tail)) xs)) j 0)
  second_copy j =
      let first = min (length xs) (length buffer - tail) in
      let copied = copy_to buffer tail (take first xs) in
      ground (
        arith,
        length-drop first xs,
        length-copy_to buffer tail (take first xs),
        get_or-copy_to copied 0 (drop first xs) j,
        get_or-drop first xs j,
        at_index (drop first xs) (j - 0) j,
      )

  pub filled-straight :
      (k : ℕ)
      → k < length xs
      → tail + k < length buffer
      → get_or (filled buffer tail xs) (tail + k) 0 ≡ get_or xs k 0
  filled-straight k h l =
      ground (arith, second_copy (tail + k), first_copy (tail + k), at_index xs (tail + k - tail) k)

  pub filled-wrapped :
      (j k : ℕ)
      → k < length xs
      → j + length buffer ≡ tail + k
      → get_or (filled buffer tail xs) j 0 ≡ get_or xs k 0
  filled-wrapped j k h e =
      ground (arith, second_copy j, at_index xs (min (length xs) (length buffer - tail) + j) k)

  pub filled-kept :
      (j : ℕ)
      → j < length buffer
      → (j < tail) ⊎ (tail + length xs ≤ j)
      → tail + length xs ≤ j + length buffer
      → get_or (filled buffer tail xs) j 0 ≡ get_or buffer j 0
  filled-kept j h out over = ground (arith, second_copy j, first_copy j)
