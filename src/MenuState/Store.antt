-- ===== src/MenuState/Store.antt =====
-- `save_state_value` and `load_state_value` of src/menu_state.cpp, on any kernel. The temporary
-- file is written, synced and closed, and only then renamed over the state file.
pub mod Ends
pub mod Atomic
pub mod Load
use nes_deck.Prelude.{
  ℕ, zero, suc, ◌+◌, ◌-◌, Bool, true, false, not, ◌||◌, List, [], ◌∷◌, ◌++◌, Option, none, some,
  ltb, ◌==◌, if◌then◌else◌, Bytes, codes, length,
}
use nes_deck.Kernel.{
  Kernel, CreateResult, created, exists, create_failed, OpenResult, opened, missing, open_failed,
  ReadResult, chunk, read_interrupted, read_failed, StatResult, stat_of, stat_failed,
}
use nes_deck.MenuIo.{WriteAll, all_written, write_error, stalled, write_all}
use nes_deck.MenuState.Number.{to_string}
use nes_deck.MenuState.Result.{
  StateError, Result, ok, err, not_absolute, cannot_create, cannot_allocate, cannot_write,
  cannot_sync, cannot_close, cannot_replace, cannot_open, cannot_stat, not_small_file, cannot_read,
  too_large, out_of_fuel,
}
use nes_deck.Text.{is_absolute_path}

-- `path.rfind('/')`, as what stands before the last slash.
unfoldable pub before_last_slash : Bytes → Option Bytes
before_last_slash [] = none
before_last_slash (c ∷ cs) = elim (before_last_slash cs) [
  | none ↦ if c == b'/' then some [] else none
  | some before ↦ some (c ∷ before)
]

unfoldable pub parent_directory : Bytes → Bytes
parent_directory path = elim (before_last_slash path) [
  | none ↦ codes "."
  | some before ↦ elim before [ [] ↦ codes "/" | c ∷ cs ↦ c ∷ cs ]
]

-- What the loop over `attempt` ends with.
pub data Temporary : Type 0 where
  temporary : Bytes → Temporary
  no_temporary : StateError → Temporary

abbrev pub Outcome : Type 0
Outcome = Result (Unit {0})

module _ (k : Kernel) where
  open k use {
    Disk, pending, pid, create_exclusive, open_file, stat, read, fsync, close, rename, unlink,
    sync_directory,
  }

  unfoldable pub temporary_name : Bytes → ℕ → Bytes
  temporary_name path attempt =
      path ++ (codes ".tmp." ++ (to_string pid ++ (b'.' ∷ to_string attempt)))

  -- What the loop does on each answer of `open`; `rest` is the loop itself.
  unfoldable pub create_turn :
      (Disk → Temporary × Disk) → Bytes → CreateResult → Disk → Temporary × Disk
  create_turn rest name created d = (temporary name, d)
  create_turn rest name exists d = rest d
  create_turn rest name create_failed d = (no_temporary cannot_create, d)

  -- The loop, with the rounds that are left.
  unfoldable pub find_temporary : ℕ → ℕ → Bytes → Disk → Temporary × Disk
  find_temporary zero attempt path d = (no_temporary cannot_allocate, d)
  find_temporary (suc rounds) attempt path d =
      let name = temporary_name path attempt in
      let (r, d') = create_exclusive name d in
      create_turn (find_temporary rounds (attempt + 1) path) name r d'

  unfoldable pub write_outcome : WriteAll → Outcome
  write_outcome all_written = ok tt
  write_outcome write_error = err cannot_write
  write_outcome stalled = err out_of_fuel

  -- `ok && step() != 0`: the step is not made once an error is there.
  unfoldable pub step_unless : Outcome → StateError → (Disk → Bool × Disk) → Disk → Outcome × Disk
  step_unless (err e) why step d = (err e, d)
  step_unless (ok t) why step d = let (done, d') = step d in (if done then ok t else err why, d')

  -- `close(fd) != 0 && ok`: the step is always made.
  unfoldable pub step_always : Outcome → StateError → (Disk → Bool × Disk) → Disk → Outcome × Disk
  step_always (err e) why step d = (err e, (step d).1)
  step_always (ok t) why step d = let (done, d') = step d in (if done then ok t else err why, d')

  -- What is done last: the temporary file is removed, or the directory is synced.
  unfoldable pub settle : Bytes → Bytes → Outcome → Disk → Outcome × Disk
  settle path name (err e) d = (err e, (unlink name d).1)
  settle path name (ok t) d = (ok t, sync_directory (parent_directory path) d)

  unfoldable pub fill_temporary : Bytes → Bytes → Bytes → Disk → Outcome × Disk
  unfolding write_outcome step_unless step_always settle
  fill_temporary path value name d =
      let (w, d1) = write_all k name (value ++ b'\n' ∷ []) d in
      let (o2, d2) = step_unless (write_outcome w) cannot_sync (fsync name) d1 in
      let (o3, d3) = step_always o2 cannot_close (close name) d2 in
      let (o4, d4) = step_unless o3 cannot_replace (rename name path) d3 in settle path name o4 d4

  unfoldable pub save_into : Bytes → Bytes → Temporary → Disk → Outcome × Disk
  save_into path value (no_temporary e) d = (err e, d)
  save_into path value (temporary name) d = fill_temporary path value name d

  unfoldable pub save_state_value : Bytes → Bytes → Disk → Outcome × Disk
  unfolding save_into
  save_state_value path value d =
      if not (is_absolute_path path)
      then (err not_absolute, d)
      else let (t, d') = find_temporary 16 0 path d in save_into path value t d'

  -- What the reading loop does on each answer of `read`; `rest` is the loop itself.
  unfoldable pub read_turn :
      (Bytes → Disk → Result Bytes × Disk) → Bytes → ReadResult → Disk → Result Bytes × Disk
  read_turn rest got (chunk []) d = (ok got, d)
  read_turn rest got (chunk (c ∷ cs)) d = rest (got ++ c ∷ cs) d
  read_turn rest got read_interrupted d = rest got d
  read_turn rest got read_failed d = (err cannot_read, d)

  -- The loop that fills a buffer of `room` bytes, of which `got` are used.
  unfoldable pub read_loop : ℕ → Bytes → ℕ → Bytes → Disk → Result Bytes × Disk
  read_loop zero path room got d =
      if ltb (length got) room then (err out_of_fuel, d) else (ok got, d)
  read_loop (suc fuel) path room got d =
      if ltb (length got) room
      then (let (r, d') = read path (length got) (room - length got) d in
          read_turn (read_loop fuel path room) got r d')
      else (ok got, d)

  -- What is made of the bytes read into the buffer of 65.
  unfoldable pub check_size : Result Bytes → Result (Option Bytes)
  check_size (err e) = err e
  check_size (ok bytes) = if length bytes == 65 then err too_large else ok (some bytes)

  -- After `fstat`: only a regular file of at most 64 bytes is read. Each turn of the loop reads a
  -- byte or uses up a pending signal, or is the last.
  unfoldable pub read_checked : Bytes → StatResult → Disk → Result (Option Bytes) × Disk
  unfolding check_size
  read_checked path stat_failed d = (err cannot_stat, (close path d).1)
  read_checked path (stat_of regular size) d =
      if not regular || ltb 64 size
      then (err not_small_file, (close path d).1)
      else let (r, d') = read_loop (65 + pending d) path 65 [] d in
        (check_size r, (close path d').1)

  unfoldable pub load_opened : Bytes → OpenResult → Disk → Result (Option Bytes) × Disk
  load_opened path missing d = (ok none, d)
  load_opened path open_failed d = (err cannot_open, d)
  load_opened path opened d = let (s, d') = stat path d in read_checked path s d'

  -- `none` where the function sets `missing`.
  unfoldable pub load_state_value : Bytes → Disk → Result (Option Bytes) × Disk
  load_state_value path d =
      if not (is_absolute_path path)
      then (err not_absolute, d)
      else let (r, d') = open_file path d in load_opened path r d'
