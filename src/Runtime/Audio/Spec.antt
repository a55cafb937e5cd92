-- ===== src/Runtime/Audio/Spec.antt =====
-- What the sound queue promises: the newest samples, as many as it has room for, oldest first, and a
-- count of those that were dropped.
use nes_deck.Prelude.{
  ℕ, ◌+◌, ◌-◌, ◌%◌, ◌^◌, Bool, true, false, not, ◌||◌, List, [], ◌∷◌, ◌++◌, ◌==◌, if◌then◌else◌,
  length, take, drop,
}
use nes_deck.Runtime.Audio.{
  Queue, Samples, Turn, waits, stops, plays, enqueue, worker_turn, worker_fails, queued_frames,
  dropped_frames,
}

pub record Fifo : Type 0 where
  pub thread_started : Bool
  pub stopping : Bool
  pub worker_failed : Bool
  pub held : Samples
  pub lost : ℕ

-- The calls of the two threads, in the order in which they get the lock.
pub data Call : Type 0 where
  push : Samples → Call
  turn fail queued lost_so_far : Call

pub data Reply : Type 0 where
  taken : Bool → Reply
  turned : Turn → Reply
  failed : Reply
  number : ℕ → Reply

module _ (cap : ℕ) where
  unfoldable pub keep_newest : Samples → Fifo → Fifo
  keep_newest samples f =
      let all = f.held ++ samples in
      let excess = length all - cap in
      record f { held = drop excess all; lost = (f.lost + excess) % 2 ^ 64 }

  unfoldable pub push_fifo : Samples → Fifo → Bool × Fifo
  push_fifo samples f =
      if length samples == 0
      then (false, f)
      else if not f.thread_started || f.stopping || f.worker_failed || cap == 0
      then (false, f)
      else (true, keep_newest samples f)

unfoldable pub turn_fifo : ℕ → Fifo → Turn × Fifo
turn_fifo chunk f =
    if f.stopping
    then (stops, f)
    else if length f.held == 0
    then (waits, f)
    else (plays (take chunk f.held), record f { held = drop chunk f.held })

unfoldable pub fail_fifo : Fifo → Fifo
fail_fifo f = record f { worker_failed = true; held = [] }

module _ (cap chunk : ℕ) where
  unfoldable pub run_fifo : List Call → Fifo → List Reply
  run_fifo [] f = []
  run_fifo (push samples ∷ calls) f =
      let (ok, f') = push_fifo cap samples f in taken ok ∷ run_fifo calls f'
  run_fifo (turn ∷ calls) f = let (t, f') = turn_fifo chunk f in turned t ∷ run_fifo calls f'
  run_fifo (fail ∷ calls) f = failed ∷ run_fifo calls (fail_fifo f)
  run_fifo (queued ∷ calls) f = number (length f.held) ∷ run_fifo calls f
  run_fifo (lost_so_far ∷ calls) f = number f.lost ∷ run_fifo calls f

-- The same calls on the queue of the source.
unfoldable pub run_queue : ℕ → List Call → Queue → List Reply
run_queue chunk [] q = []
run_queue chunk (push samples ∷ calls) q =
    let (ok, q') = enqueue samples q in taken ok ∷ run_queue chunk calls q'
run_queue chunk (turn ∷ calls) q =
    let (t, q') = worker_turn chunk q in turned t ∷ run_queue chunk calls q'
run_queue chunk (fail ∷ calls) q = failed ∷ run_queue chunk calls (worker_fails q)
run_queue chunk (queued ∷ calls) q = number (queued_frames q) ∷ run_queue chunk calls q
run_queue chunk (lost_so_far ∷ calls) q = number (dropped_frames q) ∷ run_queue chunk calls q
