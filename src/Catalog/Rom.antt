-- ===== src/Catalog/Rom.antt =====
-- `read_exact_at` and `validate_rom`, on any kernel. An error is the branch that words it.
use nes_deck.Prelude.{
  ℕ, zero, suc, ◌+◌, ◌-◌, ◌*◌, ◌%◌, ◌^◌, not, ◌&&◌, ◌||◌, [], ◌∷◌, ◌++◌, Option, none, some, ltb,
  ◌!=◌, if◌then◌else◌, length, get_or, take, drop, Bytes, equal, codes,
}
use nes_deck.Catalog.Entry.{valid_system}
use nes_deck.Catalog.Tape.{valid_tape}
use nes_deck.Kernel.{
  Kernel, OpenResult, opened, missing, open_failed, ReadResult, chunk, read_interrupted,
  read_failed, StatResult, stat_of, stat_failed,
}
use nes_deck.Text.{is_absolute_path}

pub data RomError : Type 0 where
  unsupported_system relative_path cannot_open cannot_stat not_regular no_nes_header : RomError
  no_game_boy_header bad_game_boy_checksum no_color_support bad_tape_size bad_tape_read : RomError
  bad_tape bad_chip8_size : RomError

abbrev nintendo_logo : Bytes
nintendo_logo =
    0xce ∷ 0xed ∷ 0x66 ∷ 0x66 ∷ 0xcc ∷ 0x0d ∷ 0x00 ∷ 0x0b ∷ 0x03 ∷ 0x73 ∷ 0x00 ∷ 0x83 ∷ 0x00 ∷ 0x0c
    ∷ 0x00 ∷ 0x0d ∷ 0x00 ∷ 0x08 ∷ 0x11 ∷ 0x1f ∷ 0x88 ∷ 0x89 ∷ 0x00 ∷ 0x0e ∷ 0xdc ∷ 0xcc ∷ 0x6e
    ∷ 0xe6 ∷ 0xdd ∷ 0xdd ∷ 0xd9 ∷ 0x99 ∷ 0xbb ∷ 0xbb ∷ 0x67 ∷ 0x63 ∷ 0x6e ∷ 0x0e ∷ 0xec ∷ 0xcc
    ∷ 0xdd ∷ 0xdc ∷ 0x99 ∷ 0x9f ∷ 0xbb ∷ 0xb9 ∷ 0x33 ∷ 0x3e ∷ []

-- `"NES\x1a"`.
abbrev nes_magic : Bytes
nes_magic = 0x4e ∷ 0x45 ∷ 0x53 ∷ 0x1a ∷ []

-- The checksum over the header bytes 0x34 to 0x4c, with the rounds that are left.
unfoldable pub header_checksum : ℕ → ℕ → ℕ → Bytes → ℕ
header_checksum zero index checksum header = checksum
header_checksum (suc rounds) index checksum header =
    header_checksum rounds (index + 1) ((checksum + 2 * 2 ^ 8 - get_or header index 0 - 1) % 2 ^ 8)
      header

-- The tests on the 0x50 header bytes of a Game Boy ROM.
unfoldable pub game_boy_header : Bytes → Bytes → Option RomError
unfolding header_checksum
game_boy_header system header =
    if not (equal (take 48 (drop 4 header)) nintendo_logo)
    then some no_game_boy_header
    else if header_checksum 25 0x34 0 header != get_or header 0x4d 0
    then some bad_game_boy_checksum
    else if equal system (codes "gbc")
        && get_or header 0x43 0 != 0x80
        && get_or header 0x43 0 != 0xc0
    then some no_color_support
    else none

module _ (k : Kernel) where
  open k use {Disk, pending, open_file, stat, read, close}

  -- What the reading loop does on each answer of `pread`; `rest` is the loop itself.
  unfoldable pub exact_turn :
      (Bytes → Disk → Option Bytes × Disk) → Bytes → ReadResult → Disk → Option Bytes × Disk
  exact_turn rest got (chunk []) d = (none, d)
  exact_turn rest got (chunk (c ∷ cs)) d = rest (got ++ c ∷ cs) d
  exact_turn rest got read_interrupted d = rest got d
  exact_turn rest got read_failed d = (none, d)

  unfoldable pub exact_loop : ℕ → Bytes → ℕ → ℕ → Bytes → Disk → Option Bytes × Disk
  exact_loop zero path offset size got d = (if ltb (length got) size then none else some got, d)
  exact_loop (suc fuel) path offset size got d =
      if ltb (length got) size
      then (let (r, d') = read path (offset + length got) (size - length got) d in
          exact_turn (exact_loop fuel path offset size) got r d')
      else (some got, d)

  -- `read_exact_at`; the fuel is a turn for every byte and every pending signal.
  unfoldable pub read_exact_at : Bytes → ℕ → ℕ → Disk → Option Bytes × Disk
  unfolding exact_loop exact_turn
  read_exact_at path offset size d = exact_loop (size + pending d) path offset size [] d

  abbrev max_rom : ℕ
  max_rom = 8 * 1024 * 1024

  unfoldable pub check_nes : Option Bytes → Option RomError
  check_nes none = some no_nes_header
  check_nes (some header) = if equal header nes_magic then none else some no_nes_header

  unfoldable pub check_game_boy : Bytes → Option Bytes → Option RomError
  check_game_boy system none = some no_game_boy_header
  check_game_boy system (some header) = game_boy_header system header

  unfoldable pub check_tape : Option Bytes → Option RomError
  check_tape none = some bad_tape_read
  check_tape (some tape) = if valid_tape tape then none else some bad_tape

  -- The tests by system on a regular file of `size` bytes.
  unfoldable pub check_content : Bytes → Bytes → ℕ → Disk → Option RomError × Disk
  unfolding check_nes check_game_boy check_tape
  check_content system path size d =
      if equal system (codes "nes")
      then (if ltb size 16
          then (some no_nes_header, d)
          else (let (header, d') = read_exact_at path 0 4 d in (check_nes header, d')))
      else if equal system (codes "gb") || equal system (codes "gbc")
      then (if ltb size 0x150 || ltb max_rom size
          then (some no_game_boy_header, d)
          else (let (header, d') = read_exact_at path 0x100 0x50 d in
              (check_game_boy system header, d')))
      else if equal system (codes "zx")
      then (if ltb size 4 || ltb max_rom size
          then (some bad_tape_size, d)
          else (let (tape, d') = read_exact_at path 0 size d in (check_tape tape, d')))
      else if ltb size 1 || ltb 65024 size
      then (some bad_chip8_size, d)
      else (none, d)

  unfoldable pub check_stat : Bytes → Bytes → StatResult → Disk → Option RomError × Disk
  check_stat system path stat_failed d = (some cannot_stat, d)
  check_stat system path (stat_of regular size) d =
      if not regular then (some not_regular, d) else check_content system path size d

  unfoldable pub check_opened : Bytes → Bytes → OpenResult → Disk → Option RomError × Disk
  check_opened system path missing d = (some cannot_open, d)
  check_opened system path open_failed d = (some cannot_open, d)
  check_opened system path opened d =
      let (s, d1) = stat path d in
      let (e, d2) = check_stat system path s d1 in (e, (close path d2).1)

  -- `none` where the function returns true.
  unfoldable pub validate_rom : Bytes → Bytes → Disk → Option RomError × Disk
  validate_rom system path d =
      if not (valid_system system)
      then (some unsupported_system, d)
      else if not (is_absolute_path path)
      then (some relative_path, d)
      else if equal system (codes "deck")
      then (none, d)
      else (let (r, d') = open_file path d in check_opened system path r d')
