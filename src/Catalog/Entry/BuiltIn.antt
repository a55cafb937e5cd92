-- ===== src/Catalog/Entry/BuiltIn.antt =====
-- The menu's own entries, and what it takes them for.
use nes_deck.Prelude.{◌≡◌, refl, ◌⊎◌, inl, inr, Bool, true, false, List, [], ◌∷◌, Bytes, equal}
use nes_deck.Catalog.Entry.{
  GameEntry, built_in_terminal_entry, built_in_lua_entry, built_in_lisp_entry,
  built_in_python_entry, built_in_scheme_entry, built_in_chiptune_entry, built_in_reboot_entry,
  is_built_in_terminal, is_built_in_lua, is_built_in_lisp, is_built_in_python, is_built_in_scheme,
  is_built_in_chiptune, is_built_in_reboot, terminal_mode_for_game, terminal_program_title,
}

-- The built-in entries, by the launcher, the music directory or the program they start.
pub data BuiltIn : GameEntry → Type 0 where
  terminal : (launcher : Bytes) → BuiltIn (built_in_terminal_entry launcher)
  lua : (launcher : Bytes) → BuiltIn (built_in_lua_entry launcher)
  lisp : (launcher : Bytes) → BuiltIn (built_in_lisp_entry launcher)
  python : (launcher : Bytes) → BuiltIn (built_in_python_entry launcher)
  scheme : (launcher : Bytes) → BuiltIn (built_in_scheme_entry launcher)
  chiptune : (directory : Bytes) → BuiltIn (built_in_chiptune_entry directory)
  reboot : (executable : Bytes) → BuiltIn (built_in_reboot_entry executable)

-- Which of the seven an entry is recognised as.
abbrev pub recognised : GameEntry → List Bool
recognised game =
    is_built_in_terminal game
    ∷ is_built_in_lua game
    ∷ is_built_in_lisp game
    ∷ is_built_in_python game
    ∷ is_built_in_scheme game
    ∷ is_built_in_chiptune game
    ∷ is_built_in_reboot game
    ∷ []

abbrev pub once : List Bool → Bool
once [] = false
once (true ∷ bs) = none_of bs
  where
    none_of : List Bool → Bool
    none_of [] = true
    none_of (true ∷ bs) = false
    none_of (false ∷ bs) = none_of bs
once (false ∷ bs) = once bs

-- Each built-in entry is recognised as exactly one of the seven, whatever it starts, and it either
-- opens no terminal or gives the terminal its own title.
pub BuiltIn-recognised :
    {game : GameEntry}
    → BuiltIn game
    → (once (recognised game) ≡ true)
      × ((terminal_mode_for_game game ≡ [])
          ⊎ (terminal_program_title (terminal_mode_for_game game) ≡ game.title))
unfolding built_in_terminal_entry built_in_lua_entry built_in_lisp_entry built_in_python_entry
    built_in_scheme_entry built_in_chiptune_entry built_in_reboot_entry is_built_in_terminal
    is_built_in_lua is_built_in_lisp is_built_in_python is_built_in_scheme is_built_in_chiptune
    is_built_in_reboot terminal_mode_for_game terminal_program_title equal
BuiltIn-recognised (terminal launcher) = (refl, inr refl)
BuiltIn-recognised (lua launcher) = (refl, inr refl)
BuiltIn-recognised (lisp launcher) = (refl, inr refl)
BuiltIn-recognised (python launcher) = (refl, inr refl)
BuiltIn-recognised (scheme launcher) = (refl, inr refl)
BuiltIn-recognised (chiptune directory) = (refl, inl refl)
BuiltIn-recognised (reboot executable) = (refl, inl refl)
