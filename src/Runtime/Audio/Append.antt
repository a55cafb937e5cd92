-- ===== src/Runtime/Audio/Append.antt =====
-- `append` puts samples behind what the queue holds.
use nes_deck.Prelude.{
  round, ℕ, ◌+◌, ◌-◌, ◌%◌, ◌≤◌, ◌<◌, ◌≡◌, refl, sym, ◌∙◌, ◌⊎◌, inl, inr, arith, Bool-cases, ltb→lt,
  List, ◌++◌, ltb, length, length-append, get_or,
}
use nes_deck.Runtime.Audio.{Queue, Samples, append}
use nes_deck.Prelude.Elements.{at_index, ext, get_or-append}
use nes_deck.Runtime.Audio.Window.{
  IsValid, contents, contents-straight, contents-wrapped, length-contents, place_of,
}
use nes_deck.Runtime.Audio.Filled.{
  filled, filled-kept, filled-straight, filled-wrapped, length-filled,
}

pub append-IsValid :
    (xs : Samples) (q : Queue)
    → IsValid q
    → q.size + length xs ≤ length q.buffer
    → IsValid (append xs q)
unfolding append
append-IsValid xs q v room =
    let same = length-filled q.buffer ((q.head + q.size) % length q.buffer) xs in
    record {
      head_in = omega (arith, same, v.head_in);
      size_in = omega (arith, same);
      counted = v.counted;
    }

-- An element of the longer queue, from where it lies.
module _ (xs : Samples) (q : Queue) (v : IsValid q)
    (room : q.size + length xs ≤ length q.buffer) where
  abbrev tail_of : ℕ
  tail_of = (q.head + q.size) % length q.buffer

  abbrev buffer_of : List ℕ
  buffer_of = filled q.buffer tail_of xs

  at_place :
      (i j : ℕ)
      → i < q.size + length xs
      → ((j ≡ q.head + i) × (j < length q.buffer)) ⊎ (j + length q.buffer ≡ q.head + i)
      → get_or (contents (append xs q)) i 0 ≡ get_or buffer_of j 0
  unfolding append
  at_place i j h (inl (e, l)) =
      contents-straight (append xs q) i h (omega (arith, length-filled q.buffer tail_of xs, e, l))
      ∙ at_index buffer_of (q.head + i) j (sym e)
  at_place i j h (inr e) =
      contents-wrapped (append xs q) i j
        (omega (arith, length-filled q.buffer tail_of xs, v.head_in)) h
        (omega (arith, length-filled q.buffer tail_of xs, e))

  tail_round :
      ((q.head + q.size < length q.buffer) × (tail_of ≡ q.head + q.size))
      ⊎ ((length q.buffer ≤ q.head + q.size) × (tail_of ≡ q.head + q.size - length q.buffer))
  tail_round =
      round (q.head + q.size) (length q.buffer) (omega (arith, v.head_in))
        (omega (arith, v.head_in, v.size_in))

  old_at :
      (i j : ℕ)
      → i < q.size
      → ((j ≡ q.head + i) × (j < length q.buffer)) ⊎ (j + length q.buffer ≡ q.head + i)
      → get_or (contents (append xs q)) i 0 ≡ get_or (contents q) i 0
  old_at i j h at =
      let same =
        filled-kept q.buffer tail_of xs (omega (arith, tail_round, v.head_in, v.size_in))
          (omega arith) j (omega (arith, at, v.head_in, v.size_in))
          (omega (arith, at, tail_round, v.head_in, v.size_in))
          (omega (arith, at, tail_round, v.head_in, v.size_in)) in
      let from : get_or (contents q) i 0 ≡ get_or q.buffer j 0 = elim at [
        | inl (e, l) ↦
            contents-straight q i h (omega (arith, e, l)) ∙ at_index q.buffer (q.head + i) j (sym e)
        | inr e ↦ contents-wrapped q i j v.head_in h e
      ] in
      at_place i j (omega arith) at ∙ same ∙ sym from

  old_element : (i : ℕ) → i < q.size → get_or (contents (append xs q)) i 0 ≡ get_or (contents q) i 0
  old_element i h = let (j, at) = place_of q i in old_at i j h at

  new_at :
      (k j : ℕ)
      → k < length xs
      → ((j ≡ q.head + (q.size + k)) × (j < length q.buffer))
        ⊎ (j + length q.buffer ≡ q.head + (q.size + k))
      → get_or (filled q.buffer tail_of xs) j 0 ≡ get_or xs k 0
  new_at k j h at =
      let inside : tail_of < length q.buffer = omega (arith, tail_round, v.head_in, v.size_in) in
      elim (Bool-cases (ltb (tail_of + k) (length q.buffer))) [
        | inl l ↦
            at_index buffer_of j (tail_of + k)
              (omega (arith, at, tail_round, ltb→lt _ _ l, v.size_in))
            ∙ filled-straight q.buffer tail_of xs inside (omega arith) k h (ltb→lt _ _ l)
        | inr l ↦
            filled-wrapped q.buffer tail_of xs inside (omega arith) j k h
              (ground (arith, at, tail_round, l, v.size_in, v.head_in))
      ]

  new_element :
      (k : ℕ) → k < length xs → get_or (contents (append xs q)) (q.size + k) 0 ≡ get_or xs k 0
  new_element k h =
      let (j, at) = place_of q (q.size + k) in
      at_place (q.size + k) j (omega arith) at ∙ new_at k j h at

  size_append : (append xs q).size ≡ q.size + length xs
  unfolding append
  size_append = refl

  -- With room for them, the samples are put behind what the queue holds.
  pub contents-append : contents (append xs q) ≡ contents q ++ xs
  contents-append =
      ext (contents (append xs q)) (contents q ++ xs)
        (omega (
          arith,
          length-contents (append xs q) (append-IsValid xs q v room),
          length-append (contents q) xs,
          length-contents q v,
          size_append,
        ))
        (λ i h. element i (
          omega
            (arith, h, length-contents (append xs q) (append-IsValid xs q v room), size_append)))
    where
      element :
          (i : ℕ)
          → i < q.size + length xs
          → get_or (contents (append xs q)) i 0 ≡ get_or (contents q ++ xs) i 0
      element i h = elim (Bool-cases (ltb i q.size)) [
        | inl l ↦
            old_element i (ltb→lt _ _ l)
            ∙ ground (arith, get_or-append (contents q) xs i, length-contents q v, l)
        | inr l ↦
            at_index (contents (append xs q)) i (q.size + (i - q.size)) (ground (arith, l))
            ∙ new_element (i - q.size) (ground (arith, l))
            ∙ ground (
              arith,
              get_or-append (contents q) xs i,
              length-contents q v,
              l,
              at_index xs (i - q.size) (i - length (contents q)),
            )
      ]
