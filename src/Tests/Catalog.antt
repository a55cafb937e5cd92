-- ===== src/Tests/Catalog.antt =====
-- src/menu_catalog.cpp: runs, on the kernel in memory where files matter.
use nes_deck.Prelude.{
  ℕ, ◌≤◌, ◌<◌, ◌≡◌, ◌≢◌, ◌↔◌, refl, ap, arith, Bool, true, false, [], ◌∷◌, some, none, Option,
  Bytes, codes, equal, length,
}
use nes_deck.Catalog.Color.{
  RgbColor, rgb, xterm_color, is_xterm_color, palette_loop, same_color, parse_color, color_digits,
  nibble, color_of,
}
use nes_deck.Catalog.Color.Laws.{IsColor, is_xterm_color_iff}
use nes_deck.Catalog.Entry.{valid_id, id_loop, refuses_character, valid_system, is_optional_header}
use nes_deck.Catalog.Entry.{GameEntry, built_in_lua_entry}
use nes_deck.Catalog.Entry.Slug.{IsSlug, valid_id_iff}
use nes_deck.Catalog.Manifest.{
  load_manifest, load_stat, load_opened, manifest_loop, after_turn, line_turn, line_fields,
  strip_return, add_fields, add_checked, add_colored, field_problem, insert_validated, insert_game,
  contains, finish, getlines, push_char,
}
use nes_deck.Catalog.Manifest.WellFormed.{IsCatalog}
use nes_deck.Catalog.Manifest.Laws.{load_manifest-IsCatalog}
use nes_deck.Catalog.Rom.{validate_rom, check_opened, check_stat, check_content}
use nes_deck.Catalog.Tape.{
  valid_tape, valid_tape_iff, IsTape, tape_loop, refuses_block, block_checksum,
}
use nes_deck.Kernel.{stat_of}
use nes_deck.Kernel.Memory.{MemoryDisk, memory, open_in, stat_in}
use nes_deck.Text.{
  is_absolute_path, trim_ascii_space, trim_front, trim_back, valid_utf8_text, utf8_loop,
  next_codepoint, lead, continuation, refuses_codepoint, split_tabs, split_loop, cut_tab,
}

abbrev orange : RgbColor
orange = rgb 255 135 0

palette_run : is_xterm_color orange ≡ true
unfolding is_xterm_color palette_loop same_color xterm_color
palette_run = refl

is_xterm_color_iff_example :
    (is_xterm_color orange ≡ true) ↔ ((i : ℕ) × (i < 256) × (xterm_color i ≡ orange))
is_xterm_color_iff_example = is_xterm_color_iff orange

orange-IsColor : IsColor orange
orange-IsColor = record {
  red_byte = omega arith;
  green_byte = omega arith;
  blue_byte = omega arith;
}

-- A block of two bytes, and the same with a wrong sum.
abbrev tape : Bytes
tape = 2 ∷ 0 ∷ 255 ∷ 255 ∷ []

tape_run : valid_tape tape ≡ true
unfolding valid_tape tape_loop refuses_block block_checksum
tape_run = refl

broken_run : valid_tape (2 ∷ 0 ∷ 255 ∷ 254 ∷ []) ≡ false
unfolding valid_tape tape_loop refuses_block block_checksum
broken_run = refl

valid_tape_iff_example : (valid_tape tape ≡ true) ↔ IsTape tape
valid_tape_iff_example = valid_tape_iff tape

id_run : valid_id (codes "pac-man") ≡ true
unfolding valid_id id_loop refuses_character
id_run = refl

valid_id_iff_example :
    (valid_id (codes "pac-man") ≡ true)
    ↔ ((length (codes "pac-man") ≤ 48) × IsSlug (codes "pac-man"))
valid_id_iff_example = valid_id_iff (codes "pac-man")

-- A disk with a CHIP-8 program at every path, and a manifest that names one.
abbrev card : MemoryDisk
card = record { files = λ p. some (0x12 ∷ 0 ∷ []); pending = 0 }

abbrev manifest : Bytes
manifest = codes "# Games\nid\ttitle\tsystem\trom\tcolor\nbrix\tBrix\tchip8\t/r/b\t#ff8700\r\n"

abbrev listed : Option (Bytes × Bool)
listed = some (manifest, false)

manifest_run : load_manifest memory (codes "/m.tsv") (stat_of true 70) listed card ≡ (
  none,
  record {
    id = codes "brix";
    title = codes "Brix";
    system = codes "chip8";
    rom = codes "/r/b";
    color = orange;
  }
      ∷ [],
)
unfolding load_manifest load_stat load_opened manifest_loop after_turn line_turn line_fields
    strip_return add_fields add_checked add_colored field_problem insert_validated insert_game
    contains finish getlines push_char validate_rom check_opened check_stat check_content open_in
    stat_in equal is_absolute_path trim_ascii_space trim_front trim_back valid_utf8_text utf8_loop
    next_codepoint lead continuation refuses_codepoint split_tabs split_loop cut_tab valid_id
    id_loop refuses_character valid_system is_optional_header parse_color color_digits nibble
    color_of is_xterm_color palette_loop same_color xterm_color
manifest_run = refl

load_manifest-IsCatalog_example :
    IsCatalog memory (load_manifest memory (codes "/m.tsv") (stat_of true 70) listed card).1
    × ((load_manifest memory (codes "/m.tsv") (stat_of true 70) listed card).1 ≢ [])
load_manifest-IsCatalog_example =
    load_manifest-IsCatalog memory (codes "/m.tsv") (stat_of true 70) listed card
      (ap (λ r. r.0) manifest_run)

abbrev lua_entry : GameEntry
lua_entry = built_in_lua_entry (codes "/usr/bin/lua")
