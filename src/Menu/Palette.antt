-- ===== src/Menu/Palette.antt =====
-- `load_dashboard_palette`, the reader of the colours of the dashboard. The stream is given as the
-- bytes it reads and whether it is bad at the end, and an error is the branch that words it, with
-- its line number.
pub mod Sound
pub mod Load
use nes_deck.Prelude.{
  ℕ, zero, suc, ◌+◌, Bool, true, false, not, ◌&&◌, ◌||◌, List, [], ◌∷◌, Option, none, some, ltb,
  within, ◌==◌, if◌then◌else◌, length, get_or, set, replicate, Bytes, codes, equal,
}
use nes_deck.Catalog.Color.{RgbColor, rgb, parse_color}
use nes_deck.Catalog.Manifest.{getlines, strip_return, starts_comment}
use nes_deck.Kernel.{StatResult, stat_of, stat_failed}
use nes_deck.Text.{is_absolute_path, split_tabs}

-- The names of `kPaletteTokens`, and its colours.
abbrev pub token_names : List Bytes
token_names =
    codes "background"
    ∷ codes "text-dark"
    ∷ codes "field"
    ∷ codes "surface"
    ∷ codes "inactive-border"
    ∷ codes "control-border"
    ∷ codes "footer"
    ∷ codes "inactive-text"
    ∷ codes "text"
    ∷ codes "white"
    ∷ codes "title"
    ∷ codes "volume-off"
    ∷ codes "volume-on"
    ∷ codes "selected"
    ∷ codes "wifi-active"
    ∷ codes "wifi-focus"
    ∷ codes "wifi-active-border"
    ∷ codes "field-label"
    ∷ codes "accent"
    ∷ codes "active"
    ∷ codes "control-surface"
    ∷ codes "muted"
    ∷ []

abbrev pub default_values : List RgbColor
default_values =
    rgb 0x00 0x00 0x00
    ∷ rgb 0x12 0x12 0x12
    ∷ rgb 0x12 0x12 0x12
    ∷ rgb 0x1c 0x1c 0x1c
    ∷ rgb 0x5f 0x5f 0x5f
    ∷ rgb 0x6c 0x6c 0x6c
    ∷ rgb 0xbc 0xbc 0xbc
    ∷ rgb 0xda 0xda 0xda
    ∷ rgb 0xee 0xee 0xee
    ∷ rgb 0xff 0xff 0xff
    ∷ rgb 0xff 0xff 0xaf
    ∷ rgb 0xaf 0x87 0x87
    ∷ rgb 0x87 0xaf 0x87
    ∷ rgb 0xec 0xb6 0xe7
    ∷ rgb 0x5f 0x87 0xaf
    ∷ rgb 0x87 0xaf 0xff
    ∷ rgb 0xaf 0xaf 0xff
    ∷ rgb 0xaf 0xaf 0xaf
    ∷ rgb 0xfe 0x6c 0x27
    ∷ rgb 0x50 0x33 0x11
    ∷ rgb 0x30 0x30 0x30
    ∷ rgb 0x94 0x94 0x94
    ∷ []

abbrev pub token_count : ℕ
token_count = 22

-- What `reset_dashboard_palette` makes of the colours; the icon is not kept here.
unfoldable pub reset_dashboard_palette : List RgbColor → List RgbColor
reset_dashboard_palette palette = default_values

-- The loop over the characters.
unfoldable pub icon_loop : Bytes → Bool
icon_loop [] = true
icon_loop (c ∷ cs) =
    let rest = icon_loop cs in
    if not (within b'a' b'z' c || within b'0' b'9' c || c == b'-') then false else rest

unfoldable pub valid_legacy_settings_icon : Bytes → Bool
valid_legacy_settings_icon name =
    if length name == 0 || ltb 64 (length name) then false else icon_loop name

pub data PaletteProblem : Type 0 where
  field_count bad_icon unknown_role duplicate_role bad_color : PaletteProblem

pub data PaletteError : Type 0 where
  relative_path no_stat bad_file no_open read_error missing_role : PaletteError
  line_error : ℕ → PaletteProblem → PaletteError

-- What the loop over the lines has so far.
pub record Progress : Type 0 where
  pub values : List RgbColor
  pub seen : List Bool
  pub saw_legacy_settings_icon : Bool

-- A turn of the loop, and the loop: an early return, or on to what follows.
pub data Turn : Type 0 where
  stopped : PaletteError → Turn
  going : Progress → Turn

-- The loop that looks for a role among the names that are left; past the last if there is none.
unfoldable pub find_token : List Bytes → Bytes → ℕ
find_token [] role = 0
find_token (name ∷ names) role =
    let rest = find_token names role in if equal role name then 0 else suc rest

unfoldable pub store_color : ℕ → ℕ → Option RgbColor → Progress → Turn
store_color line_number token none p = stopped (line_error line_number bad_color)
store_color line_number token (some color) p =
    going (record p { values = set p.values token color; seen = set p.seen token true })

unfoldable pub role_turn : ℕ → ℕ → Bytes → Progress → Turn
role_turn line_number token color p =
    if token == token_count
    then stopped (line_error line_number unknown_role)
    else if get_or p.seen token false
    then stopped (line_error line_number duplicate_role)
    else store_color line_number token (parse_color color) p

unfoldable pub icon_turn : ℕ → Bytes → Progress → Turn
icon_turn line_number name p =
    if p.saw_legacy_settings_icon || not (valid_legacy_settings_icon name)
    then stopped (line_error line_number bad_icon)
    else going (record p { saw_legacy_settings_icon = true })

unfoldable pub fields_turn : ℕ → List Bytes → Progress → Turn
fields_turn line_number (role ∷ value ∷ []) p =
    if equal role (codes "settings-icon")
    then icon_turn line_number value p
    else role_turn line_number (find_token token_names role) value p
fields_turn line_number _ p = stopped (line_error line_number field_count)

-- A turn on a line without its carriage return.
unfoldable pub line_turn : ℕ → Bytes → Progress → Turn
line_turn line_number line p =
    if length line == 0 || starts_comment line
    then going p
    else fields_turn line_number (split_tabs line) p

-- `rest` is the loop itself.
unfoldable pub after_turn : (Progress → Turn) → Turn → Turn
after_turn rest (stopped e) = stopped e
after_turn rest (going p) = rest p

-- The loop, with the number of lines before.
unfoldable pub palette_lines : ℕ → List Bytes → Progress → Turn
palette_lines before [] p = going p
palette_lines before (line ∷ lines) p =
    after_turn (palette_lines (before + 1) lines) (line_turn (before + 1) (strip_return line) p)

unfoldable pub all_seen : List Bool → Bool
all_seen [] = true
all_seen (b ∷ bs) = b && all_seen bs

abbrev pub nothing_seen : Progress
nothing_seen = record {
  values = replicate token_count (rgb 0 0 0);
  seen = replicate token_count false;
  saw_legacy_settings_icon = false;
}

-- The tests after the loop: the error, if any, and the palette, which changes at the end only.
unfoldable pub finish : Bool → List RgbColor → Turn → Option PaletteError × List RgbColor
finish bad palette (stopped e) = (some e, palette)
finish bad palette (going p) =
    if bad
    then (some read_error, palette)
    else if not (all_seen p.seen)
    then (some missing_role, palette)
    else (none, p.values)

unfoldable pub load_opened :
    Option (Bytes × Bool) → List RgbColor → Option PaletteError × List RgbColor
load_opened none palette = (some no_open, palette)
load_opened (some (content, bad)) palette =
    finish bad palette (palette_lines 0 (getlines content) nothing_seen)

unfoldable pub load_stat :
    StatResult → Option (Bytes × Bool) → List RgbColor → Option PaletteError × List RgbColor
load_stat stat_failed stream palette = (some no_stat, palette)
load_stat (stat_of regular size) stream palette =
    if not regular || ltb 4096 size then (some bad_file, palette) else load_opened stream palette

-- With what `lstat` tells of the path and what the stream holds that is opened on it.
unfoldable pub load_dashboard_palette :
    Bytes → StatResult → Option (Bytes × Bool) → List RgbColor → Option PaletteError × List RgbColor
load_dashboard_palette path status stream palette =
    if not (is_absolute_path path)
    then (some relative_path, palette)
    else load_stat status stream palette
