-- ===== src/Catalog/Manifest.antt =====
-- `load_manifest`, on any kernel. The stream is given as the bytes it reads and whether it is bad
-- at the end. An error is the branch that words it, with its line number.
pub mod WellFormed
pub mod Laws
use nes_deck.Prelude.{
  ℕ, ◌+◌, ◌-◌, Bool, true, false, not, ◌&&◌, ◌||◌, List, [], ◌∷◌, ◌++◌, Option, none, some, ltb,
  ◌==◌, if◌then◌else◌, length, Bytes, equal, codes,
}
use nes_deck.Catalog.Color.{RgbColor, parse_color, is_xterm_color}
use nes_deck.Catalog.Entry.{GameEntry, is_empty, valid_id, valid_system, is_optional_header}
use nes_deck.Catalog.Rom.{RomError, validate_rom}
use nes_deck.Kernel.{Kernel, StatResult, stat_of, stat_failed}
use nes_deck.Text.{path_max, is_absolute_path, trim_ascii_space, valid_utf8_text, split_tabs}

pub data LineProblem : Type 0 where
  too_long field_count bad_id bad_title bad_system bad_rom_path bad_color : LineProblem
  foreign_color duplicate_id duplicate_rom : LineProblem
  bad_rom : RomError → LineProblem

pub data ManifestError : Type 0 where
  relative_manifest no_stat bad_file no_open too_many_games read_error no_games : ManifestError
  line_error : ℕ → LineProblem → ManifestError

-- What the loop has so far; the sets of ids and ROMs in the order of insertion.
pub record Progress : Type 0 where
  pub games : List GameEntry
  pub ids : List Bytes
  pub roms : List Bytes
  pub saw_data : Bool

-- One turn of the loop, and the loop: an early return, or on to what follows.
pub data Turn : Type 0 where
  stopped : ManifestError → Progress → Turn
  going : Progress → Turn

-- The lines that `std::getline` takes from a stream: a last one that is empty is none.
unfoldable pub push_char : ℕ → List Bytes → List Bytes
push_char c [] = (c ∷ []) ∷ []
push_char c (line ∷ lines) = (c ∷ line) ∷ lines

unfoldable pub getlines : Bytes → List Bytes
unfolding push_char
getlines [] = []
getlines (c ∷ cs) =
    let behind = getlines cs in if c == b'\n' then [] ∷ behind else push_char c behind

-- Without a carriage return at the end.
unfoldable pub strip_return : Bytes → Bytes
strip_return [] = []
strip_return (c ∷ []) = if c == b'\r' then [] else c ∷ []
strip_return (c ∷ d ∷ cs) = c ∷ strip_return (d ∷ cs)

abbrev pub starts_comment : Bytes → Bool
starts_comment [] = false
starts_comment (c ∷ cs) = c == b'#'

-- `!std::set::insert(...).second`.
unfoldable pub contains : Bytes → List Bytes → Bool
contains x [] = false
contains x (y ∷ ys) = equal x y || contains x ys

-- The tests on the fields before the colour, in order.
unfoldable pub field_problem : Bytes → Bytes → Bytes → Bytes → Option LineProblem
field_problem id title system rom =
    if not (valid_id id)
    then some bad_id
    else if not (valid_utf8_text title 64 false) || not (equal (trim_ascii_space title) title)
    then some bad_title
    else if not (valid_system system)
    then some bad_system
    else if not (valid_utf8_text rom (path_max - 1) false) || not (equal (trim_ascii_space rom) rom)
    then some bad_rom_path
    else none

-- The insertions into the two sets and the list.
unfoldable pub insert_game : ℕ → GameEntry → Progress → Turn
unfolding contains
insert_game line_number game p =
    if contains game.id p.ids
    then stopped (line_error line_number duplicate_id) p
    else if contains game.rom p.roms
    then stopped (line_error line_number duplicate_rom) (record p { ids = p.ids ++ game.id ∷ [] })
    else (let p' : Progress = record {
      games = p.games ++ game ∷ [];
      ids = p.ids ++ game.id ∷ [];
      roms = p.roms ++ game.rom ∷ [];
      saw_data = p.saw_data;
    } in
        if ltb 64 (length p'.games) then stopped too_many_games p' else going p')

unfoldable pub insert_validated : ℕ → GameEntry → Progress → Option RomError → Turn
unfolding insert_game
insert_validated line_number game p (some e) = stopped (line_error line_number (bad_rom e)) p
insert_validated line_number game p none = insert_game line_number game p

abbrev pub no_entries : List GameEntry → Bool
no_entries [] = true
no_entries (game ∷ games) = false

-- The tests after the loop: the error, if any, and the games in the vector.
unfoldable pub finish : Bool → Turn → Option ManifestError × List GameEntry
finish bad (stopped e p) = (some e, p.games)
finish bad (going p) =
    if bad
    then (some read_error, p.games)
    else if no_entries p.games
    then (some no_games, p.games)
    else (none, p.games)

abbrev pub empty_progress : Progress
empty_progress = record { games = []; ids = []; roms = []; saw_data = false }

module _ (k : Kernel) where
  open k use {Disk}

  -- Five fields, once the tests before have found `problem`, and the colour has been read.
  unfoldable pub add_colored :
      ℕ → Bytes → Bytes → Bytes → Bytes → Option RgbColor → Progress → Disk → Turn × Disk
  unfolding insert_validated
  add_colored line_number id title system rom none p d =
      (stopped (line_error line_number bad_color) p, d)
  add_colored line_number id title system rom (some color) p d =
      let game : GameEntry = record {
        id = id;
        title = title;
        system = system;
        rom = rom;
        color = color;
      } in
      if not (is_xterm_color color)
      then (stopped (line_error line_number foreign_color) p, d)
      else (let (e, d') = validate_rom k system rom d in
          (insert_validated line_number game p e, d'))

  unfoldable pub add_checked :
      ℕ → Bytes → Bytes → Bytes → Bytes → Bytes → Option LineProblem → Progress → Disk → Turn × Disk
  unfolding add_colored
  add_checked line_number id title system rom color (some e) p d =
      (stopped (line_error line_number e) p, d)
  add_checked line_number id title system rom color none p d =
      add_colored line_number id title system rom (parse_color color) p d

  unfoldable pub add_fields : ℕ → List Bytes → Progress → Disk → Turn × Disk
  unfolding add_checked field_problem
  add_fields line_number (id ∷ title ∷ system ∷ rom ∷ color ∷ []) p d =
      add_checked line_number id title system rom color (field_problem id title system rom) p d
  add_fields line_number fields p d = (stopped (line_error line_number field_count) p, d)

  -- A turn on a line without its carriage return.
  unfoldable pub line_fields : ℕ → Bytes → Progress → Disk → Turn × Disk
  unfolding add_fields
  line_fields line_number line p d =
      if is_empty line || starts_comment line
      then (going p, d)
      else if not p.saw_data && is_optional_header (split_tabs line)
      then (going (record p { saw_data = true }), d)
      else add_fields line_number (split_tabs line) (record p { saw_data = true }) d

  unfoldable pub line_turn : ℕ → Bytes → Progress → Disk → Turn × Disk
  unfolding line_fields strip_return
  line_turn line_number line p d =
      if ltb 4096 (length line)
      then (stopped (line_error line_number too_long) p, d)
      else line_fields line_number (strip_return line) p d

  -- `rest` is the loop itself.
  unfoldable pub after_turn : (Progress → Disk → Turn × Disk) → Turn → Disk → Turn × Disk
  after_turn rest (stopped e p) d = (stopped e p, d)
  after_turn rest (going p) d = rest p d

  -- The loop, with the number of lines before.
  unfoldable pub manifest_loop : ℕ → List Bytes → Progress → Disk → Turn × Disk
  unfolding line_turn after_turn
  manifest_loop before [] p d = (going p, d)
  manifest_loop before (line ∷ lines) p d =
      let (t, d') = line_turn (before + 1) line p d in
      after_turn (manifest_loop (before + 1) lines) t d'

  unfoldable pub load_opened : Option (Bytes × Bool) → Disk → Option ManifestError × List GameEntry
  unfolding manifest_loop finish getlines
  load_opened none d = (some no_open, [])
  load_opened (some (content, bad)) d =
      finish bad (manifest_loop 0 (getlines content) empty_progress d).0

  unfoldable pub load_stat :
      StatResult → Option (Bytes × Bool) → Disk → Option ManifestError × List GameEntry
  unfolding load_opened
  load_stat stat_failed stream d = (some no_stat, [])
  load_stat (stat_of regular size) stream d =
      if not regular || ltb 65536 size then (some bad_file, []) else load_opened stream d

  -- With what `stat` tells of the path and what the stream holds that is opened on it.
  unfoldable pub load_manifest :
      Bytes → StatResult → Option (Bytes × Bool) → Disk → Option ManifestError × List GameEntry
  unfolding load_stat
  load_manifest path status stream d =
      if not (is_absolute_path path)
      then (some relative_manifest, [])
      else load_stat status stream d
