-- ===== src/Catalog/Entry.antt =====
-- `GameEntry`, the ids and systems of entries, the built-in entries and their terminal modes. The
-- cover image, which is loaded later and elsewhere, is left out of the entry.
pub mod Slug
pub mod BuiltIn
use nes_deck.Prelude.{
  ℕ, Bool, true, false, not, ◌&&◌, ◌||◌, List, [], ◌∷◌, Option, none, some, ltb, within, ◌==◌,
  if◌then◌else◌, length, Bytes, equal, codes,
}
use nes_deck.Catalog.Color.{RgbColor, xterm_color}

pub record GameEntry : Type 0 where
  pub id : Bytes
  pub title : Bytes
  pub system : Bytes
  pub rom : Bytes
  pub color : RgbColor

abbrev pub is_alnum : ℕ → Bool
is_alnum c = within b'a' b'z' c || within b'0' b'9' c

abbrev pub is_empty : Bytes → Bool
is_empty [] = true
is_empty (c ∷ cs) = false

-- The tests of `valid_id` on one character, by the one before it if it is not the first.
unfoldable pub refuses_character : Option ℕ → ℕ → Bytes → Bool
refuses_character none c behind = not (is_alnum c)
refuses_character (some previous) c behind =
    not (is_alnum c || c == b'-') || (c == b'-' && (is_empty behind || previous == b'-'))

-- The loop over `index`.
unfoldable pub id_loop : Option ℕ → Bytes → Bool
unfolding refuses_character
id_loop previous [] = true
id_loop previous (c ∷ cs) =
    let behind = id_loop (some c) cs in if refuses_character previous c cs then false else behind

unfoldable pub valid_id : Bytes → Bool
valid_id id = if is_empty id || ltb 48 (length id) then false else id_loop none id

unfoldable pub is_optional_header : List Bytes → Bool
is_optional_header (id ∷ title ∷ system ∷ rom ∷ color ∷ []) =
    equal id (codes "id")
    && equal title (codes "title")
    && equal system (codes "system")
    && equal rom (codes "rom")
    && (equal color (codes "color") || equal color (codes "#RRGGBB"))
is_optional_header fields = false

unfoldable pub valid_system : Bytes → Bool
valid_system system =
    equal system (codes "nes")
    || equal system (codes "gb")
    || equal system (codes "gbc")
    || equal system (codes "zx")
    || equal system (codes "chip8")
    || equal system (codes "deck")

-- An entry of the menu's own.
abbrev built_in : Bytes → Bytes → Bytes → ℕ → GameEntry
built_in id title rom index = record {
  id = id;
  title = title;
  system = codes "deck";
  rom = rom;
  color = xterm_color index;
}

abbrev is_built_in : Bytes → GameEntry → Bool
is_built_in id game = equal game.id id && equal game.system (codes "deck")

unfoldable pub built_in_terminal_entry : Bytes → GameEntry
built_in_terminal_entry launcher = built_in (codes "terminal") (codes "TERMINAL") launcher 67

unfoldable pub is_built_in_terminal : GameEntry → Bool
is_built_in_terminal = is_built_in (codes "terminal")

unfoldable pub built_in_lua_entry : Bytes → GameEntry
built_in_lua_entry launcher = built_in (codes "lua-repl") (codes "LUA REPL") launcher 69

unfoldable pub is_built_in_lua : GameEntry → Bool
is_built_in_lua = is_built_in (codes "lua-repl")

unfoldable pub built_in_lisp_entry : Bytes → GameEntry
built_in_lisp_entry launcher = built_in (codes "lisp-repl") (codes "LISP REPL") launcher 149

unfoldable pub is_built_in_lisp : GameEntry → Bool
is_built_in_lisp = is_built_in (codes "lisp-repl")

unfoldable pub built_in_python_entry : Bytes → GameEntry
built_in_python_entry launcher = built_in (codes "python-repl") (codes "PYTHON REPL") launcher 220

unfoldable pub is_built_in_python : GameEntry → Bool
is_built_in_python = is_built_in (codes "python-repl")

unfoldable pub built_in_scheme_entry : Bytes → GameEntry
built_in_scheme_entry launcher = built_in (codes "scheme-repl") (codes "SCHEME REPL") launcher 114

unfoldable pub is_built_in_scheme : GameEntry → Bool
is_built_in_scheme = is_built_in (codes "scheme-repl")

unfoldable pub built_in_chiptune_entry : Bytes → GameEntry
built_in_chiptune_entry directory = built_in (codes "chiptunes") (codes "CHIPTUNES") directory 208

unfoldable pub is_built_in_chiptune : GameEntry → Bool
is_built_in_chiptune = is_built_in (codes "chiptunes")

unfoldable pub built_in_reboot_entry : Bytes → GameEntry
built_in_reboot_entry executable = built_in (codes "reboot") (codes "REBOOT") executable 167

unfoldable pub is_built_in_reboot : GameEntry → Bool
is_built_in_reboot = is_built_in (codes "reboot")

-- The empty mode stands for no terminal.
unfoldable pub terminal_mode_for_game : GameEntry → Bytes
terminal_mode_for_game game =
    if is_built_in_terminal game
    then codes "shell"
    else if is_built_in_lua game
    then codes "lua"
    else if is_built_in_lisp game
    then codes "lisp"
    else if is_built_in_python game
    then codes "python"
    else if is_built_in_scheme game
    then codes "scheme"
    else []

unfoldable pub terminal_program_title : Bytes → Bytes
terminal_program_title mode =
    if equal mode (codes "lua")
    then codes "LUA REPL"
    else if equal mode (codes "lisp")
    then codes "LISP REPL"
    else if equal mode (codes "python")
    then codes "PYTHON REPL"
    else if equal mode (codes "scheme")
    then codes "SCHEME REPL"
    else codes "TERMINAL"
