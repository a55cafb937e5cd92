-- ===== src/Tests/Options.antt =====
-- The command line of src/deck_menu.cpp.
use nes_deck.Prelude.{
  ℕ, ◌<◌, ◌≡◌, refl, Bool, true, false, not, List, [], ◌∷◌, ◌++◌, Bytes, codes, equal, get_or,
  replicate,
}
use nes_deck.Prelude.Bits.{all_below, all_below_sound}
use nes_deck.Menu.Options.{
  is_empty, parsed, failed, duplicate_option, parse_options, parse_arguments, argument_of,
  find_option, check_options, check_parsed,
}
use nes_deck.Menu.Options.Given.{Accepts, parse_options-Accepts}
use nes_deck.Menu.Options.Print.{print_from, parse_options-print_from}

help_run :
    parse_options (codes "--help" ∷ codes "--manifest" ∷ codes "/m" ∷ [])
    ≡ parsed (record {
      geometry_test = false;
      help = true;
      values = replicate 7 [] ++ codes "/m" ∷ replicate 14 [];
    })
unfolding parse_options parse_arguments argument_of find_option check_options check_parsed equal
help_run = refl

twice_run :
    parse_options (codes "--credits" ∷ codes "/a" ∷ codes "--credits" ∷ codes "/b" ∷ [])
    ≡ failed (duplicate_option 8)
unfolding parse_options parse_arguments argument_of find_option check_options check_parsed equal
twice_run = refl

abbrev validation : List Bytes
validation = codes "--validate-palette" ∷ codes "/p" ∷ []

parse_options-Accepts_example :
    Accepts validation
      (record { geometry_test = false; help = false; values = replicate 21 [] ++ codes "/p" ∷ [] })
unfolding parse_options parse_arguments argument_of find_option check_options check_parsed equal
parse_options-Accepts_example = parse_options-Accepts validation _ refl

abbrev paths : List Bytes
paths = replicate 20 (codes "/opt/deck/part")

paths_given : (i : ℕ) → i < 20 → is_empty (get_or paths i []) ≡ false
unfolding all_below
paths_given i below =
    not_true _ (all_below_sound 20 (λ k. not (is_empty (get_or paths k []))) i passed below)
  where
    passed : all_below 20 (λ k. not (is_empty (get_or paths k []))) ≡ true
    passed = refl

    not_true : (b : Bool) → not b ≡ true → b ≡ false
    not_true true e = cc
    not_true false e = refl

parse_options-print_from_example :
    parse_options (print_from 0 paths)
    ≡ parsed (record { geometry_test = false; help = false; values = paths ++ [] ∷ [] ∷ [] })
parse_options-print_from_example = parse_options-print_from paths refl paths_given
