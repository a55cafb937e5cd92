-- ===== src/Runtime/Audio/Insert.antt =====
-- `insert` keeps the newest samples and counts those that it drops.
use nes_deck.Prelude.{
  ℕ, zero, suc, ◌+◌, ◌-◌, ◌%◌, ◌^◌, ◌≤◌, ◌≡◌, refl, sym, ap, ap₂, ◌∙◌, inl, inr, arith, Bool-cases,
  [], ◌∷◌, ◌++◌, ltb, length, length-append, length-drop, drop,
}
use nes_deck.Runtime.Audio.{Queue, Samples, skip, discard, append, insert}
use nes_deck.Runtime.Audio.Window.{IsValid, contents, length-contents}
use nes_deck.Runtime.Audio.Filled.{length-filled}
use nes_deck.Runtime.Audio.Append.{append-IsValid, contents-append}
use nes_deck.Runtime.Audio.Advance.{advance-IsValid, contents-advance, drop-append}

-- `discard` makes room by dropping the oldest samples, and counts them.
record Discarded (count : ℕ) (q r : Queue) : Type 0 where
  valid : IsValid r
  room : r.size + count ≤ length r.buffer
  same_size : length r.buffer ≡ length q.buffer
  left : contents r ≡ drop (count - (length q.buffer - q.size)) (contents q)
  counted : r.dropped ≡ (q.dropped + (count - (length q.buffer - q.size))) % 2 ^ 64

discard-Discarded :
    (count : ℕ) (q : Queue)
    → IsValid q
    → count ≤ length q.buffer
    → Discarded count q (discard count q)
unfolding discard
discard-Discarded count q v fits = elim (Bool-cases (ltb (length q.buffer - q.size) count)) [
  | inl l ↦
      let d = count - (length q.buffer - q.size) in
      let enough : d ≤ q.size = omega arith in
      let w = advance-IsValid d q v enough in
      rw l (record {
        valid = record { head_in = w.head_in; size_in = w.size_in; counted = omega arith };
        room = ground (arith, l, v.size_in);
        same_size = refl;
        left = contents-advance d q v enough;
        counted = refl;
      })
  | inr l ↦
      let none_over : 0 ≡ count - (length q.buffer - q.size) = ground (arith, l) in
      rw l (record {
        valid = v;
        room = ground (arith, l, v.size_in);
        same_size = refl;
        left = ap (λ n. drop n (contents q)) none_over;
        counted = omega (arith, none_over, v.counted);
      })
]

pub flags-insert :
    (xs : Samples) (q : Queue)
    → ((insert xs q).thread_started ≡ q.thread_started)
      × ((insert xs q).stopping ≡ q.stopping)
      × ((insert xs q).worker_failed ≡ q.worker_failed)
unfolding insert skip discard append
flags-insert xs q = (ground arith, ground arith, ground arith)

record Skipped (xs : Samples) (q : Queue) (r : Samples × Queue) : Type 0 where
  kept : r.0 ≡ drop (length xs - length q.buffer) xs
  valid : IsValid r.1
  same_buffer : length r.1.buffer ≡ length q.buffer
  same_size : r.1.size ≡ q.size
  same : contents r.1 ≡ contents q
  counted : r.1.dropped ≡ (q.dropped + (length xs - length q.buffer)) % 2 ^ 64

skip-Skipped : (xs : Samples) (q : Queue) → IsValid q → Skipped xs q (skip xs q)
unfolding skip
skip-Skipped xs q v = elim (Bool-cases (ltb (length q.buffer) (length xs))) [
  | inl l ↦ rw l (record {
    kept = refl;
    valid = record { head_in = v.head_in; size_in = v.size_in; counted = omega arith };
    same_buffer = refl;
    same_size = refl;
    same = refl;
    counted = refl;
  })
  | inr l ↦
      let none_over : 0 ≡ length xs - length q.buffer = ground (arith, l) in
      rw l (record {
        kept = ap (λ n. drop n xs) none_over;
        valid = v;
        same_buffer = refl;
        same_size = refl;
        same = refl;
        counted = omega (arith, none_over, v.counted);
      })
]

pub drop_all : (n : ℕ) (xs : Samples) → length xs ≤ n → drop n xs ≡ []
drop_all zero [] h = refl
drop_all zero (x ∷ xs) h = absurd (omega arith)
drop_all (suc n) [] h = refl
drop_all (suc n) (x ∷ xs) h = drop_all n xs (omega arith)

-- What is dropped of the old samples, counted in the two ways.
drop_old :
    (cap n : ℕ) (held : Samples)
    → length held ≤ cap
    → drop (n - (n - cap) - (cap - length held)) held ≡ drop (length held + n - cap) held
drop_old cap n held h = elim (Bool-cases (ltb cap n)) [
  | inl l ↦
      drop_all (n - (n - cap) - (cap - length held)) held (ground (arith, l))
      ∙ sym (drop_all (length held + n - cap) held (ground (arith, l)))
  | inr l ↦
      let e : n - (n - cap) - (cap - length held) ≡ length held + n - cap = ground (arith, l) in
      ap (λ k. drop k held) e
]

drop_new :
    (cap n size : ℕ) (xs : Samples)
    → size ≤ cap
    → drop (n - cap) xs ≡ drop (size + n - cap - size) xs
drop_new cap n size xs h =
    let e : n - cap ≡ size + n - cap - size = omega arith in ap (λ k. drop k xs) e

module _ (xs : Samples) (q : Queue) (v : IsValid q) where
  abbrev kept_of : Samples
  kept_of = (skip xs q).0

  abbrev skipped_of : Queue
  skipped_of = (skip xs q).1

  room_made : Discarded (length kept_of) skipped_of (discard (length kept_of) skipped_of)
  room_made =
      let s = skip-Skipped xs q v in
      discard-Discarded (length kept_of) skipped_of s.valid (
        omega
          (arith, ap length s.kept, length-drop (length xs - length q.buffer) xs, s.same_buffer))

  pub insert-IsValid : IsValid (insert xs q)
  unfolding insert
  insert-IsValid =
      append-IsValid kept_of (discard (length kept_of) skipped_of) room_made.valid room_made.room

  old_kept :
      contents (discard (length kept_of) skipped_of)
      ≡ drop (length (contents q) + length xs - length q.buffer) (contents q)
  old_kept =
      let s = skip-Skipped xs q v in
      let size = length-contents q v in
      let count : length kept_of - (length skipped_of.buffer - skipped_of.size)
          ≡ length xs - (length xs - length q.buffer) - (length q.buffer - length (contents q)) =
        omega (
          arith,
          ap length s.kept,
          length-drop (length xs - length q.buffer) xs,
          s.same_buffer,
          s.same_size,
          size,
        ) in
      room_made.left
      ∙ ap₂ drop count s.same
      ∙ drop_old (length q.buffer) (length xs) (contents q) (omega (arith, size, v.size_in))

  pub contents-insert :
      contents (insert xs q) ≡ drop (length (contents q ++ xs) - length q.buffer) (contents q ++ xs)
  unfolding insert
  contents-insert =
      let size = length-contents q v in
      let most : length (contents q ++ xs) ≡ length (contents q) + length xs =
        length-append (contents q) xs in
      contents-append kept_of (discard (length kept_of) skipped_of) room_made.valid room_made.room
      ∙ ap₂ ◌++◌ old_kept (
          (skip-Skipped xs q v).kept
          ∙ drop_new (length q.buffer) (length xs) (length (contents q)) xs
              (omega (arith, size, v.size_in)))
      ∙ sym (drop-append (length (contents q) + length xs - length q.buffer) (contents q) xs)
      ∙ ap (λ n. drop (n - length q.buffer) (contents q ++ xs)) (sym most)

  pub dropped-insert :
      (insert xs q).dropped ≡ (q.dropped + (length (contents q ++ xs) - length q.buffer)) % 2 ^ 64
  unfolding insert append
  dropped-insert =
      let s = skip-Skipped xs q v in
      omega (
        arith,
        s.counted,
        room_made.counted,
        ap length s.kept,
        length-drop (length xs - length q.buffer) xs,
        s.same_buffer,
        s.same_size,
        length-append (contents q) xs,
        length-contents q v,
        v.size_in,
      )

  pub length-insert : length (insert xs q).buffer ≡ length q.buffer
  unfolding insert append
  length-insert =
      let s = skip-Skipped xs q v in
      length-filled (discard (length kept_of) skipped_of).buffer _ kept_of
      ∙ room_made.same_size
      ∙ s.same_buffer
