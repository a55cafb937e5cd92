-- ===== src/Menu/Options.antt =====
-- The command line of src/deck_menu.cpp: `parse_options`. The options that take a value are numbered
-- as in `option_names`: those that are required, and the two that only validate a file.
pub mod Read
pub mod Given
pub mod Print
use nes_deck.Prelude.{
  ℕ, zero, suc, ◌+◌, Bool, true, false, not, ◌||◌, List, [], ◌∷◌, Option, none, some, ◌==◌, ◌!=◌,
  if◌then◌else◌, length, get_or, set, replicate, Bytes, codes, equal,
}
use nes_deck.Prelude.Bits.{all_below}

abbrev pub option_names : List Bytes
option_names =
    codes "--nes-emulator"
    ∷ codes "--gb-emulator"
    ∷ codes "--zx-emulator"
    ∷ codes "--chip8-emulator"
    ∷ codes "--deck-game"
    ∷ codes "--chiptune-player"
    ∷ codes "--chiptune-directory"
    ∷ codes "--manifest"
    ∷ codes "--credits"
    ∷ codes "--palette"
    ∷ codes "--settings-icon"
    ∷ codes "--cover-directory"
    ∷ codes "--volume-state"
    ∷ codes "--brightness"
    ∷ codes "--brightness-max"
    ∷ codes "--brightness-state"
    ∷ codes "--keymap-state"
    ∷ codes "--terminal"
    ∷ codes "--wifi-helper"
    ∷ codes "--wifi-status"
    ∷ codes "--validate-manifest"
    ∷ codes "--validate-palette"
    ∷ []

abbrev pub option_name : ℕ → Bytes
option_name i = get_or option_names i []

abbrev pub required_count : ℕ
required_count = 20

abbrev pub validate_manifest : ℕ
validate_manifest = 20

abbrev pub validate_palette : ℕ
validate_palette = 21

pub record Options : Type 0 where
  pub geometry_test : Bool
  pub help : Bool
  -- The value of each option, empty where it is not given.
  pub values : List Bytes

abbrev pub no_options : Options
no_options = record { geometry_test = false; help = false; values = replicate 22 [] }

pub data OptionsError : Type 0 where
  missing_value duplicate_option : ℕ → OptionsError
  unknown_option : Bytes → OptionsError
  not_alone options_required : OptionsError

pub data Parsed : Type 0 where
  parsed : Options → Parsed
  failed : OptionsError → Parsed

-- What an argument is that is not a value.
pub data Argument : Type 0 where
  geometry_argument help_argument unknown_argument : Argument
  value_argument : ℕ → Argument

abbrev pub is_empty : Bytes → Bool
is_empty [] = true
is_empty (c ∷ cs) = false

unfoldable pub find_option : List Bytes → ℕ → Bytes → Argument
find_option [] i argument = unknown_argument
find_option (name ∷ names) i argument =
    let later = find_option names (suc i) argument in
    if equal argument name then value_argument i else later

unfoldable pub argument_of : Bytes → Argument
argument_of argument =
    if equal argument (codes "--geometry-test")
    then geometry_argument
    else if equal argument (codes "--help") || equal argument (codes "-h")
    then help_argument
    else find_option option_names 0 argument

-- The loop over the arguments; an option that has been read waits for its value.
unfoldable pub parse_arguments : Option ℕ → List Bytes → Options → Parsed
parse_arguments none [] options = parsed options
parse_arguments (some i) [] options = failed (missing_value i)
parse_arguments none (argument ∷ arguments) options = elim (argument_of argument) [
  | geometry_argument ↦ parse_arguments none arguments (record options { geometry_test = true })
  | help_argument ↦ parse_arguments none arguments (record options { help = true })
  | value_argument i ↦ parse_arguments (some i) arguments options
  | unknown_argument ↦ failed (unknown_option argument)
]
parse_arguments (some i) (value ∷ arguments) options =
    let rest =
      parse_arguments none arguments (record options { values = set options.values i value }) in
    if not (is_empty (get_or options.values i [])) then failed (duplicate_option i) else rest

-- What is checked once all arguments are read; `argc` counts the program's name too.
unfoldable pub check_options : ℕ → Options → Parsed
check_options argc options =
    if options.help
    then parsed options
    else if options.geometry_test
    then (if argc != 2 then failed not_alone else parsed options)
    else if not (is_empty (get_or options.values validate_manifest []))
    then (if argc != 3 then failed not_alone else parsed options)
    else if not (is_empty (get_or options.values validate_palette []))
    then (if argc != 3 then failed not_alone else parsed options)
    else if not (all_below required_count (λ i. not (is_empty (get_or options.values i []))))
    then failed options_required
    else parsed options

unfoldable pub check_parsed : ℕ → Parsed → Parsed
check_parsed argc (failed e) = failed e
check_parsed argc (parsed options) = check_options argc options

-- On the arguments after the program's name.
unfoldable pub parse_options : List Bytes → Parsed
parse_options arguments =
    check_parsed (suc (length arguments)) (parse_arguments none arguments no_options)
