-- ===== src/Chiptune/Scan.antt =====
-- `scan_chiptunes` of src/chiptune_deck.cpp, on a tree of files. Names are sorted by insertion, in
-- place of `std::sort`: those of one directory are all different.
pub mod Found
pub mod Search
use nes_deck.Prelude.{
  ℕ, zero, suc, ◌+◌, ◌*◌, Bool, true, false, not, ◌&&◌, List, [], ◌∷◌, ◌++◌, ltb, leb, ◌==◌,
  if◌then◌else◌, length, Bytes,
}
use nes_deck.Chiptune.Names.{supported_extension}

-- A regular file of a size, a directory that can be read, or anything else that has a name.
mutual
  pub data Node : Type 0 where
    regular : ℕ → Node
    directory : Entries → Node
    skipped : Node

  pub data Entries : Type 0 where
    nil : Entries
    entry : Bytes → Node → Entries → Entries

abbrev pub maximum_files : ℕ
maximum_files = 1024

abbrev pub maximum_file_size : ℕ
maximum_file_size = 16 * 1024 * 1024

-- `operator<=` of `std::string`, on bytes.
unfoldable pub not_after : Bytes → Bytes → Bool
not_after [] right = true
not_after (l ∷ left) [] = false
not_after (l ∷ left) (r ∷ right) = if l == r then not_after left right else ltb l r

unfoldable pub insert : Bytes → Node → Entries → Entries
insert name node nil = entry name node nil
insert name node (entry name' node' rest) =
    let later = insert name node rest in
    if not_after name name'
    then entry name node (entry name' node' rest)
    else entry name' node' later

abbrev pub is_visible : Bytes → Bool
is_visible [] = false
is_visible (c ∷ cs) = not (c == b'.')

-- What `readdir` gives, without the hidden names, sorted.
unfoldable pub sorted_names : Entries → Entries
sorted_names nil = nil
sorted_names (entry name node rest) =
    let others = sorted_names rest in if is_visible name then insert name node others else others

abbrev pub is_playable : ℕ → Bytes → Bool
is_playable size path = ltb 0 size && leb size maximum_file_size && supported_extension path

abbrev pub path_in : Bytes → Bytes → Bytes
path_in dir name = dir ++ b'/' ∷ name

-- What the loop does with one name; `scan` is the function itself, one level deeper.
unfoldable pub scan_node :
    (Bytes → Entries → List Bytes → List Bytes) → Bytes → Node → List Bytes → List Bytes
scan_node scan path (regular size) files =
    if is_playable size path then files ++ path ∷ [] else files
scan_node scan path (directory entries) files = scan path entries files
scan_node scan path skipped files = files

unfoldable pub scan_names :
    (Bytes → Entries → List Bytes → List Bytes) → Bytes → Entries → List Bytes → List Bytes
scan_names scan dir nil files = files
scan_names scan dir (entry name node rest) files =
    if leb maximum_files (length files)
    then files
    else scan_names scan dir rest (scan_node scan (path_in dir name) node files)

-- With the levels that are left: none at depth 5.
unfoldable pub scan_chiptunes : ℕ → Bytes → Entries → List Bytes → List Bytes
scan_chiptunes zero dir entries files = files
scan_chiptunes (suc levels) dir entries files =
    if leb maximum_files (length files)
    then files
    else scan_names (scan_chiptunes levels) dir (sorted_names entries) files
