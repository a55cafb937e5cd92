-- ===== src/Kernel.antt =====
-- The system calls that src/menu_io.cpp and src/menu_state.cpp make, as an interface. A file
-- descriptor stands for the path that it was opened on. Every call may fail; the laws say what a
-- call that succeeds has done and that one that fails has done nothing. `pending` counts the
-- signals that will still interrupt a call: each interruption uses one up.
pub mod Memory
use nes_deck.Prelude.{
  ℕ, ◌+◌, ◌≤◌, ◌<◌, ◌≡◌, ◌≢◌, List, [], ◌++◌, Option, none, some, Bool, true, false, Bytes, length,
  take, drop,
}

-- `open` with O_CREAT and O_EXCL.
pub data CreateResult : Type 0 where
  created exists create_failed : CreateResult

-- `open` of what should be there already.
pub data OpenResult : Type 0 where
  opened missing open_failed : OpenResult

-- What `write` returns.
pub data WriteResult : Type 0 where
  wrote : ℕ → WriteResult
  write_interrupted write_failed : WriteResult

-- What `read` returns; no bytes at the end of the file.
pub data ReadResult : Type 0 where
  chunk : Bytes → ReadResult
  read_interrupted read_failed : ReadResult

-- What `fstat` returns: whether the file is regular, and its size.
pub data StatResult : Type 0 where
  stat_of : Bool → ℕ → StatResult
  stat_failed : StatResult

pub record Kernel : Type 1 where
  pub Disk : Type 0
  -- The bytes of the regular file at a path.
  pub content : Disk → Bytes → Option Bytes
  pub pending : Disk → ℕ
  pub pid : ℕ
  pub create_exclusive : Bytes → Disk → CreateResult × Disk
  pub open_file : Bytes → Disk → OpenResult × Disk
  pub stat : Bytes → Disk → StatResult × Disk
  -- At an offset, up to a number of bytes.
  pub read : Bytes → ℕ → ℕ → Disk → ReadResult × Disk
  -- At the end of what was written before.
  pub write : Bytes → Bytes → Disk → WriteResult × Disk
  pub fsync : Bytes → Disk → Bool × Disk
  pub close : Bytes → Disk → Bool × Disk
  pub rename : Bytes → Bytes → Disk → Bool × Disk
  pub unlink : Bytes → Disk → Bool × Disk
  pub sync_directory : Bytes → Disk → Disk

-- The laws that the theorems on saving use.
module _ (k : Kernel) where
  open k use {
    Disk, content, pending, create_exclusive, open_file, stat, read, write, fsync, close, rename,
    unlink, sync_directory,
  }

  -- The same files with the same bytes.
  abbrev pub Same : Disk → Disk → Type 0
  Same d d' = (p : Bytes) → content d' p ≡ content d p

  -- The same but for one path.
  abbrev pub SameBut : Bytes → Disk → Disk → Type 0
  SameBut q d d' = (p : Bytes) → p ≢ q → content d' p ≡ content d p

  abbrev pub Created : Bytes → Disk → CreateResult → Disk → Type 0
  Created q d created d' = SameBut q d d' × (content d q ≡ none) × (content d' q ≡ some [])
  Created q d exists d' = Same d d'
  Created q d create_failed d' = Same d d'

  abbrev pub Opened : Bytes → Disk → OpenResult → Disk → Type 0
  Opened q d opened d' = Same d d'
  Opened q d missing d' = Same d d' × (content d q ≡ none)
  Opened q d open_failed d' = Same d d'

  abbrev pub Wrote : Bytes → Bytes → Disk → WriteResult → Disk → Type 0
  Wrote q bytes d (wrote n) d' =
      SameBut q d d'
      × ((old : Bytes) → content d q ≡ some old → content d' q ≡ some (old ++ take n bytes))
      × (n ≤ length bytes)
      × (pending d' ≤ pending d)
  Wrote q bytes d write_interrupted d' = Same d d' × (pending d' < pending d)
  Wrote q bytes d write_failed d' = Same d d'

  abbrev pub Read : Bytes → ℕ → ℕ → Disk → ReadResult → Disk → Type 0
  Read q offset limit d (chunk bytes) d' =
      Same d d'
      × ((whole : Bytes)
          → content d q ≡ some whole
          → (bytes ≡ take (length bytes) (drop offset whole))
            × (bytes ≡ [] → 0 < limit → drop offset whole ≡ []))
      × (length bytes ≤ limit)
      × (pending d' ≤ pending d)
  Read q offset limit d read_interrupted d' = Same d d' × (pending d' < pending d)
  Read q offset limit d read_failed d' = Same d d'

  abbrev pub Renamed : Bytes → Bytes → Disk → Bool → Disk → Type 0
  Renamed a b d true d' =
      ((p : Bytes) → p ≢ a → p ≢ b → content d' p ≡ content d p)
      × (a ≢ b → content d' a ≡ none)
      × (content d' b ≡ content d a)
  Renamed a b d false d' = Same d d'

  -- `content` knows the regular files.
  abbrev pub Stat : Bytes → Disk → StatResult → Disk → Type 0
  Stat q d (stat_of regular size) d' = Same d d' × (regular ≡ true → content d q ≢ none)
  Stat q d stat_failed d' = Same d d'

  abbrev pub Unlinked : Bytes → Disk → Bool → Disk → Type 0
  Unlinked q d true d' = SameBut q d d' × (content d' q ≡ none)
  Unlinked q d false d' = Same d d'

  pub record KernelLaws : Type 0 where
    pub create_law :
        (q : Bytes) (d : Disk) → Created q d (create_exclusive q d).0 (create_exclusive q d).1
    pub open_law : (q : Bytes) (d : Disk) → Opened q d (open_file q d).0 (open_file q d).1
    pub stat_law : (q : Bytes) (d : Disk) → Stat q d (stat q d).0 (stat q d).1
    pub read_law :
        (q : Bytes) (offset limit : ℕ) (d : Disk)
        → Read q offset limit d (read q offset limit d).0 (read q offset limit d).1
    pub write_law :
        (q bytes : Bytes) (d : Disk) → Wrote q bytes d (write q bytes d).0 (write q bytes d).1
    pub fsync_law : (q : Bytes) (d : Disk) → Same d (fsync q d).1
    pub close_law : (q : Bytes) (d : Disk) → Same d (close q d).1
    pub rename_law : (a b : Bytes) (d : Disk) → Renamed a b d (rename a b d).0 (rename a b d).1
    pub unlink_law : (q : Bytes) (d : Disk) → Unlinked q d (unlink q d).0 (unlink q d).1
    pub sync_law : (q : Bytes) (d : Disk) → Same d (sync_directory q d)
