-- ===== src/Chiptune/Volume.antt =====
-- `save_player_volume` of src/chiptune_deck.cpp, on any kernel. A name in the directory that is open
-- stands as its whole path. The loop that writes is that of `write_all`, and so it is taken from there.
pub mod Temporary
pub mod Atomic
use nes_deck.Prelude.{
  ℕ, zero, suc, ◌+◌, Bool, true, false, not, ◌||◌, List, [], ◌∷◌, ◌++◌, Option, none, some, ltb,
  ◌==◌, if◌then◌else◌, Bytes, codes, length, drop,
}
use nes_deck.Kernel.{
  Kernel, CreateResult, created, exists, create_failed, OpenResult, opened, missing, open_failed,
}
use nes_deck.MenuIo.{write_all}
use nes_deck.MenuState.Number.{to_string}
use nes_deck.MenuState.Result.{Result, ok, err, cannot_sync, cannot_close, cannot_replace}
use nes_deck.MenuState.Store.{before_last_slash, write_outcome, step_unless, step_always, Outcome}
use nes_deck.Text.{path_max}

abbrev pub name_max : ℕ
name_max = 255

abbrev pub starts_with_slash : Bytes → Bool
starts_with_slash [] = false
starts_with_slash (c ∷ cs) = c == b'/'

abbrev pub no_name : Bytes → Bool
no_name [] = true
no_name (c ∷ cs) = false

abbrev pub directory_of : Bytes → Bytes
directory_of [] = codes "/"
directory_of (c ∷ cs) = c ∷ cs

module _ (k : Kernel) where
  open k use {Disk, pid, create_exclusive, open_file, fsync, close, rename, unlink}

  unfoldable pub volume_suffix : ℕ → Bytes
  volume_suffix attempt = codes ".chiptune." ++ (to_string pid ++ (b'.' ∷ to_string attempt))

  -- What the loop does on each answer of `openat`; `rest` is the loop itself.
  unfoldable pub volume_turn :
      (Disk → Option Bytes × Disk) → Bytes → CreateResult → Disk → Option Bytes × Disk
  volume_turn rest name created d = (some name, d)
  volume_turn rest name exists d = rest d
  volume_turn rest name create_failed d = (none, d)

  -- The loop over the attempts, with the rounds that are left.
  unfoldable pub volume_temporary : ℕ → ℕ → Bytes → Bytes → Disk → Option Bytes × Disk
  volume_temporary zero attempt path filename d = (none, d)
  volume_temporary (suc rounds) attempt path filename d =
      let name = path ++ volume_suffix attempt in
      let (r, d') = create_exclusive name d in
      if ltb name_max (length (filename ++ volume_suffix attempt))
      then (none, d)
      else volume_turn (volume_temporary rounds (attempt + 1) path filename) name r d'

  -- The end: the temporary file is removed if not all is valid.
  unfoldable pub end_volume : Bytes → Outcome → Disk → Bool × Disk
  end_volume name (ok t) d = (true, d)
  end_volume name (err e) d = (false, (unlink name d).1)

  unfoldable pub fill_volume : Bytes → Bytes → Bytes → Bytes → Disk → Bool × Disk
  fill_volume path directory value name d =
      let (w, d1) = write_all k name value d in
      let (o2, d2) = step_unless k (write_outcome k w) cannot_sync (fsync name) d1 in
      let (o3, d3) = step_always k o2 cannot_close (close name) d2 in
      let (o4, d4) = step_unless k o3 cannot_replace (rename name path) d3 in
      let (o5, d5) = step_unless k o4 cannot_sync (fsync directory) d4 in end_volume name o5 d5

  unfoldable pub save_volume_into : Bytes → Bytes → Bytes → Option Bytes → Disk → Bool × Disk
  save_volume_into path directory value none d = (false, d)
  save_volume_into path directory value (some name) d = fill_volume path directory value name d

  -- With the directory open, which is closed at the end.
  unfoldable pub save_volume_in : Bytes → Bytes → Bytes → Bytes → OpenResult → Disk → Bool × Disk
  save_volume_in path directory filename value missing d = (false, d)
  save_volume_in path directory filename value open_failed d = (false, d)
  save_volume_in path directory filename value opened d =
      let (t, d1) = volume_temporary 8 0 path filename d in
      let (saved, d2) = save_volume_into path directory value t d1 in
      (saved, (close directory d2).1)

  unfoldable pub save_volume_at : Bytes → Bytes → Option Bytes → Disk → Bool × Disk
  save_volume_at path value none d = (false, d)
  save_volume_at path value (some before) d =
      let filename = drop (suc (length before)) path in
      let directory = directory_of before in
      let (r, d') = open_file directory d in
      if no_name filename then (false, d) else save_volume_in path directory filename value r d'

  unfoldable pub save_player_volume : Bytes → ℕ → Disk → Bool × Disk
  save_player_volume path volume d =
      if no_name path
      then (true, d)
      else if not (starts_with_slash path) || ltb path_max (length path) || ltb 100 volume
      then (false, d)
      else save_volume_at path (to_string volume ++ b'\n' ∷ []) (before_last_slash path) d
