-- ===== src/Runtime/Audio/Advance.antt =====
-- The queue without its oldest samples, and `take_chunk`, which plays them.
use nes_deck.Prelude.{
  round, ℕ, zero, suc, ◌+◌, ◌-◌, ◌%◌, ◌≤◌, ◌<◌, min, ◌≡◌, refl, sym, ap, ◌∙◌, ◌⊎◌, inl, inr, arith,
  Bool-cases, ltb→lt, [], ◌∷◌, ◌++◌, ltb, length, length-append, length-take, length-drop, take,
  drop, get_or,
}
use nes_deck.Runtime.Audio.{Queue, Samples, take_chunk}
use nes_deck.Prelude.Elements.{at_index, ext, get_or-take, get_or-drop, get_or-append}
use nes_deck.Runtime.Audio.Window.{
  IsValid, contents, contents-straight, contents-wrapped, length-contents, place_of,
}

-- The queue without its `d` oldest samples.
abbrev advance : ℕ → Queue → Queue
advance d q = record q { head = (q.head + d) % length q.buffer; size = q.size - d }

module _ (d : ℕ) (q : Queue) (v : IsValid q) (enough : d ≤ q.size) where
  advance_round :
      ((q.head + d < length q.buffer) × ((q.head + d) % length q.buffer ≡ q.head + d))
      ⊎ ((length q.buffer ≤ q.head + d)
          × ((q.head + d) % length q.buffer ≡ q.head + d - length q.buffer))
  advance_round =
      round (q.head + d) (length q.buffer) (omega (arith, v.head_in))
        (omega (arith, v.head_in, v.size_in))

  pub advance-IsValid : IsValid (advance d q)
  advance-IsValid = record {
    head_in = omega (arith, advance_round, v.head_in, v.size_in);
    size_in = omega (arith, v.size_in);
    counted = v.counted;
  }

  advanced_element :
      (i : ℕ) → i < q.size - d → get_or (contents (advance d q)) i 0 ≡ get_or (contents q) (d + i) 0
  advanced_element i h =
      let (j, at) = place_of (advance d q) i in
      let found : get_or (contents (advance d q)) i 0 ≡ get_or q.buffer j 0 = elim at [
        | inl (e, l) ↦
            contents-straight (advance d q) i h (omega (arith, e, l))
            ∙ at_index q.buffer _ j (sym e)
        | inr e ↦ contents-wrapped (advance d q) i j advance-IsValid.head_in h e
      ] in
      found
      ∙ sym (elim (Bool-cases (ltb (q.head + (d + i)) (length q.buffer))) [
        | inl l ↦
            contents-straight q (d + i) (omega arith) (ltb→lt _ _ l)
            ∙ at_index q.buffer (q.head + (d + i)) j
                (ground (arith, at, advance_round, l, v.size_in))
        | inr l ↦
            contents-wrapped q (d + i) j v.head_in (omega arith)
              (ground (arith, at, advance_round, l, v.size_in, v.head_in))
      ])

  pub contents-advance : contents (advance d q) ≡ drop d (contents q)
  contents-advance =
      ext (contents (advance d q)) (drop d (contents q))
        (omega (
          arith,
          length-contents (advance d q) advance-IsValid,
          length-drop d (contents q),
          length-contents q v,
        ))
        (λ i h.
          advanced_element i (omega (arith, h, length-contents (advance d q) advance-IsValid))
          ∙ sym (get_or-drop d (contents q) i))

pub drop-append :
    (n : ℕ) (xs ys : Samples) → drop n (xs ++ ys) ≡ drop n xs ++ drop (n - length xs) ys
drop-append zero [] ys = refl
drop-append zero (x ∷ xs) ys =
    let e : 0 ≡ 0 - suc (length xs) = omega arith in ap (λ k. x ∷ xs ++ drop k ys) e
drop-append (suc n) [] ys = let e : suc n ≡ suc n - 0 = omega arith in ap (λ k. drop k ys) e
drop-append (suc n) (x ∷ xs) ys =
    let e : n - length xs ≡ suc n - suc (length xs) = omega arith in
    drop-append n xs ys ∙ ap (λ k. drop n xs ++ drop k ys) e

-- The two copies out of the queue are its oldest samples.
pub take_chunk-contents :
    (chunk : ℕ) (q : Queue) → IsValid q → (take_chunk chunk q).0 ≡ take chunk (contents q)
unfolding take_chunk
take_chunk-contents chunk q v =
    let count = min q.size chunk in
    let first = min count (length q.buffer - q.head) in
    let front = take first (drop q.head q.buffer) in
    let behind = take (count - first) q.buffer in
    ext _ (take chunk (contents q))
      (ground (
        arith,
        length-take first (drop q.head q.buffer),
        length-drop q.head q.buffer,
        length-take (count - first) q.buffer,
        length-append front behind,
        length-take chunk (contents q),
        length-contents q v,
      ))
      (λ i h. ground (
        arith,
        length-take first (drop q.head q.buffer),
        length-drop q.head q.buffer,
        length-take (count - first) q.buffer,
        length-append front behind,
        get_or-append front behind i,
        get_or-take first (drop q.head q.buffer) i,
        get_or-drop q.head q.buffer i,
        get_or-take (count - first) q.buffer (i - length front),
        get_or-take chunk (contents q) i,
        get_or-take q.size (drop q.head q.buffer ++ q.buffer) i,
        get_or-append (drop q.head q.buffer) q.buffer i,
        at_index q.buffer (i - length front) (i - length (drop q.head q.buffer)),
      ))
