-- ===== src/Runtime/Audio/Refine.antt =====
-- The sound queue of the source is the queue that `Spec` describes.
use nes_deck.Prelude.{
  ℕ, ◌≤◌, min, ◌≡◌, refl, sym, ap, ap₂, ◌∙◌, inl, inr, arith, Bool, true, false, Bool-cases, List,
  [], ◌∷◌, ltb, ◌==◌, if◌then◌else◌, length, take, drop,
}
use nes_deck.Runtime.Audio.{
  Queue, Samples, waits, stops, plays, insert, refuses, enqueue, take_chunk, worker_turn,
  worker_fails, queued_frames, dropped_frames,
}
use nes_deck.Runtime.Audio.Spec.{
  Fifo, Call, push, turn, fail, queued, lost_so_far, taken, turned, failed, number, keep_newest,
  push_fifo, turn_fifo, fail_fifo, run_fifo, run_queue,
}
use nes_deck.Runtime.Audio.Window.{IsValid, contents, length-contents}
use nes_deck.Runtime.Audio.Advance.{advance-IsValid, contents-advance, take_chunk-contents}
use nes_deck.Runtime.Audio.Insert.{
  contents-insert, drop_all, dropped-insert, flags-insert, insert-IsValid, length-insert,
}

abbrev pub view : Queue → Fifo
view q = record {
  thread_started = q.thread_started;
  stopping = q.stopping;
  worker_failed = q.worker_failed;
  held = contents q;
  lost = q.dropped;
}

Fifo-eq :
    (a b : Fifo)
    → a.thread_started ≡ b.thread_started
    → a.stopping ≡ b.stopping
    → a.worker_failed ≡ b.worker_failed
    → a.held ≡ b.held
    → a.lost ≡ b.lost
    → a ≡ b
Fifo-eq a b e1 e2 e3 e4 e5 = ground arith

view-insert :
    (xs : Samples) (q : Queue)
    → IsValid q
    → view (insert xs q) ≡ keep_newest (length q.buffer) xs (view q)
unfolding keep_newest
view-insert xs q v =
    let (e1, e2, e3) = flags-insert xs q in
    Fifo-eq _ _ e1 e2 e3 (contents-insert xs q v) (dropped-insert xs q v)

-- A queue that is valid, with what it does and what is promised.
record Matches (cap : ℕ) (q : Queue) (f : Fifo) : Type 0 where
  valid : IsValid q
  capacity : length q.buffer ≡ cap
  seen : view q ≡ f

abbrev Both {ℓ} : {A : Type ℓ} → ℕ → A × Queue → A × Fifo → Type ℓ
Both cap x y = (x.0 ≡ y.0) × Matches cap x.1 y.1

-- Two tests that agree choose agreeing branches.
choose {ℓ} :
    {A : Type ℓ} (cap : ℕ) (b b' : Bool) (x z : A × Queue) (y w : A × Fifo)
    → b ≡ b'
    → Both cap x y
    → Both cap z w
    → Both cap (if b then x else z) (if b' then y else w)
choose cap true true x z y w e h k = h
choose cap false false x z y w e h k = k
choose cap true false x z y w e h k = absurd (ground (arith, e))
choose cap false true x z y w e h k = absurd (ground (arith, e))

same-Both {ℓ} :
    {A : Type ℓ} (a : A) (q : Queue) → IsValid q → Both (length q.buffer) (a, q) (a, view q)
same-Both a q v = (refl, record { valid = v; capacity = refl; seen = refl })

enqueue-Both :
    (xs : Samples) (q : Queue)
    → IsValid q
    → Both (length q.buffer) (enqueue xs q) (push_fifo (length q.buffer) xs (view q))
unfolding enqueue push_fifo
enqueue-Both xs q v =
    choose _ (length xs == 0) (length xs == 0) _ _ _ _ refl (same-Both false q v) (
      choose _ (refuses q) (refuses q) _ _ _ _ refl (same-Both false q v) (
        refl,
        record {
          valid = insert-IsValid xs q v;
          capacity = length-insert xs q v;
          seen = view-insert xs q v;
        },
      ))

take_chunk-Both :
    (chunk : ℕ) (q : Queue)
    → IsValid q
    → Both
        (length q.buffer)
        (plays (take_chunk chunk q).0, (take_chunk chunk q).1)
        (plays (take chunk (contents q)), record (view q) { held = drop chunk (contents q) })
take_chunk-Both chunk q v =
    let enough : min q.size chunk ≤ q.size = omega arith in
    (
      ap plays (take_chunk-contents chunk q v),
      unfold take_chunk in
          record {
            valid = advance-IsValid (min q.size chunk) q v enough;
            capacity = refl;
            seen =
                Fifo-eq _ _ refl refl refl
                  (contents-advance (min q.size chunk) q v enough
                    ∙ drop_min chunk q.size (contents q) (omega (arith, length-contents q v)))
                  refl;
          },
    )
  where
    drop_min :
        (n size : ℕ) (held : Samples) → length held ≤ size → drop (min size n) held ≡ drop n held
    drop_min n size held h = elim (Bool-cases (ltb size n)) [
      | inl l ↦
          drop_all (min size n) held (ground (arith, l)) ∙ sym (drop_all n held (ground (arith, l)))
      | inr l ↦ let e : min size n ≡ n = ground (arith, l) in ap (λ k. drop k held) e
    ]

worker_turn-Both :
    (chunk : ℕ) (q : Queue)
    → IsValid q
    → Both (length q.buffer) (worker_turn chunk q) (turn_fifo chunk (view q))
unfolding worker_turn turn_fifo
worker_turn-Both chunk q v = choose _ q.stopping q.stopping _ _ _ _ refl (same-Both stops q v) (
    choose _ (q.size == 0) (length (contents q) == 0) _ _ _ _
      (ap (λ n. n == 0) (sym (length-contents q v))) (same-Both waits q v)
      (take_chunk-Both chunk q v))

worker_fails-Matches :
    (q : Queue) → IsValid q → Matches (length q.buffer) (worker_fails q) (fail_fifo (view q))
unfolding worker_fails fail_fifo
worker_fails-Matches q v = record {
  valid = record { head_in = v.head_in; size_in = omega arith; counted = v.counted };
  capacity = refl;
  seen = refl;
}

-- Whatever the two threads do, in whatever order they get the lock, a valid queue answers as the
-- plain list that keeps the newest samples: a call that is taken puts its samples behind those that
-- are held, drops the oldest beyond the capacity and counts them, and the worker plays the oldest
-- first. Asked at any moment, the queue tells how many samples are held and how many were dropped,
-- in 64 bits.
pub run_queue_refines :
    (chunk : ℕ) (calls : List Call) (q : Queue)
    → IsValid q
    → run_queue chunk calls q ≡ run_fifo (length q.buffer) chunk calls (view q)
unfolding run_queue run_fifo queued_frames dropped_frames
run_queue_refines chunk [] q v = refl
run_queue_refines chunk (push xs ∷ calls) q v =
    let (same, next) = enqueue-Both xs q v in
    ap₂ ◌∷◌ (ap taken same) (
      run_queue_refines chunk calls (enqueue xs q).1 next.valid
      ∙ ap₂ (λ c f. run_fifo c chunk calls f) next.capacity next.seen)
run_queue_refines chunk (turn ∷ calls) q v =
    let (same, next) = worker_turn-Both chunk q v in
    ap₂ ◌∷◌ (ap turned same) (
      run_queue_refines chunk calls (worker_turn chunk q).1 next.valid
      ∙ ap₂ (λ c f. run_fifo c chunk calls f) next.capacity next.seen)
run_queue_refines chunk (fail ∷ calls) q v =
    let next = worker_fails-Matches q v in
    ap (λ rest. failed ∷ rest)
      (run_queue_refines chunk calls (worker_fails q) next.valid
        ∙ ap₂ (λ c f. run_fifo c chunk calls f) next.capacity next.seen)
run_queue_refines chunk (queued ∷ calls) q v =
    ap₂ (λ n rest. number n ∷ rest) (sym (length-contents q v)) (run_queue_refines chunk calls q v)
run_queue_refines chunk (lost_so_far ∷ calls) q v =
    ap (λ rest. number q.dropped ∷ rest) (run_queue_refines chunk calls q v)
