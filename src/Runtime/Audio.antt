-- ===== src/Runtime/Audio.antt =====
-- `DeckAudio::enqueue`, what the queue is asked for, and the part of `DeckAudio::audio_thread_main`
-- under the lock. Samples are only moved here, so a sample is any number. A copy writes past no end
-- of its buffer.
pub mod Copy
pub mod Window
pub mod Filled
pub mod Append
pub mod Advance
pub mod Insert
pub mod Spec
pub mod Refine
use nes_deck.Prelude.{
  ℕ, zero, suc, ◌+◌, ◌-◌, ◌%◌, ◌^◌, min, Bool, true, false, not, ◌||◌, List, [], ◌∷◌, ◌++◌, ltb,
  ◌==◌, if◌then◌else◌, length, set, take, drop,
}

-- The fields of `DeckAudio` that the two threads share.
pub record Queue : Type 0 where
  pub thread_started : Bool
  pub stopping : Bool
  pub worker_failed : Bool
  pub head : ℕ
  pub size : ℕ
  pub dropped : ℕ
  pub buffer : List ℕ

abbrev pub Samples : Type 0
Samples = List ℕ

-- `memcpy` of samples to an index.
unfoldable pub copy_to : List ℕ → ℕ → Samples → List ℕ
copy_to buffer i [] = buffer
copy_to buffer i (x ∷ xs) = copy_to (set buffer i x) (i + 1) xs

-- Samples that the whole queue could not hold.
unfoldable pub skip : Samples → Queue → Samples × Queue
skip samples q =
    if ltb (length q.buffer) (length samples)
    then (let skipped = length samples - length q.buffer in
        (drop skipped samples, record q { dropped = (q.dropped + skipped) % 2 ^ 64 }))
    else (samples, q)

-- The oldest samples, where there is no room for `count` more.
unfoldable pub discard : ℕ → Queue → Queue
discard count q =
    if ltb (length q.buffer - q.size) count
    then (let discarded = count - (length q.buffer - q.size) in
        record q {
          head = (q.head + discarded) % length q.buffer;
          size = q.size - discarded;
          dropped = (q.dropped + discarded) % 2 ^ 64;
        })
    else q

-- The two copies.
unfoldable pub append : Samples → Queue → Queue
append samples q =
    let count = length samples in
    let tail = (q.head + q.size) % length q.buffer in
    let first = min count (length q.buffer - tail) in
    let copied = copy_to q.buffer tail (take first samples) in
    record q {
      buffer = if ltb first count then copy_to copied 0 (drop first samples) else copied;
      size = q.size + count;
    }

unfoldable pub insert : Samples → Queue → Queue
insert samples q = let (kept, q') = skip samples q in append kept (discard (length kept) q')

-- Whether samples are taken.
abbrev pub refuses : Queue → Bool
refuses q = not q.thread_started || q.stopping || q.worker_failed || length q.buffer == 0

unfoldable pub enqueue : Samples → Queue → Bool × Queue
enqueue samples q =
    if length samples == 0
    then (false, q)
    else if refuses q
    then (false, q)
    else (true, insert samples q)

-- What the worker finds when it has the lock.
pub data Turn : Type 0 where
  waits stops : Turn
  plays : Samples → Turn

-- The copies of at most `chunk` samples out of the queue.
unfoldable pub take_chunk : ℕ → Queue → Samples × Queue
take_chunk chunk q =
    let count = min q.size chunk in
    let first = min count (length q.buffer - q.head) in
    let front = take first (drop q.head q.buffer) in
    (
      if ltb first count then front ++ take (count - first) q.buffer else front,
      record q { head = (q.head + count) % length q.buffer; size = q.size - count },
    )

unfoldable pub worker_turn : ℕ → Queue → Turn × Queue
worker_turn chunk q =
    if q.stopping
    then (stops, q)
    else if q.size == 0
    then (waits, q)
    else (let (samples, q') = take_chunk chunk q in (plays samples, q'))

-- After a failed write.
unfoldable pub worker_fails : Queue → Queue
worker_fails q = record q { worker_failed = true; size = 0 }

unfoldable pub queued_frames : Queue → ℕ
queued_frames q = q.size

unfoldable pub dropped_frames : Queue → ℕ
dropped_frames q = q.dropped
