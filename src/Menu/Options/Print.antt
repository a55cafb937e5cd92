-- ===== src/Menu/Options/Print.antt =====
-- A command line that gives all the options is accepted with their values.
use nes_deck.Prelude.{
  ℕ, zero, suc, ◌+◌, ◌<◌, ◌≤◌, ◌≡◌, refl, sym, ap, ◌∙◌, arith, Bool, true, false, not, List, [],
  ◌∷◌, ◌++◌, append_assoc, none, ◌==◌, length, length-append, get_or, set, replicate, Bytes, equal,
}
use nes_deck.Prelude.Bits.{all_below, all_below_sound}
use nes_deck.Menu.Options.{
  option_name, required_count, validate_manifest, validate_palette, Options, no_options, parsed,
  Argument, geometry_argument, help_argument, unknown_argument, value_argument, is_empty,
  find_option, argument_of, parse_arguments, check_options, check_parsed, parse_options,
}

-- Each option from a number on, before its value.
abbrev pub print_from : ℕ → List Bytes → List Bytes
print_from i [] = []
print_from i (value ∷ values) = option_name i ∷ value ∷ print_from (suc i) values

is_value : Argument → ℕ → Bool
is_value (value_argument k) i = k == i
is_value _ i = false

named : ℕ → Bool
named i = is_value (argument_of (option_name i)) i

all_named : all_below 22 named ≡ true
unfolding all_below named is_value argument_of find_option equal
all_named = refl

is_value_sound : (k : Argument) (i : ℕ) → is_value k i ≡ true → k ≡ value_argument i
unfolding is_value
is_value_sound geometry_argument i e = cc
is_value_sound help_argument i e = cc
is_value_sound unknown_argument i e = cc
is_value_sound (value_argument k) i e =
    let same : k ≡ i = ground (arith, e) in ap value_argument same

argument_of-option_name : (i : ℕ) → i < 22 → argument_of (option_name i) ≡ value_argument i
unfolding named
argument_of-option_name i below =
    is_value_sound (argument_of (option_name i)) i (all_below_sound 22 named i all_named below)

get_or-next :
    (before after : List Bytes) (v : Bytes) → get_or (before ++ v ∷ after) (length before) [] ≡ v
get_or-next [] after v = refl
get_or-next (x ∷ before) after v = get_or-next before after v

set-next :
    (before after : List Bytes) (old v : Bytes)
    → set (before ++ old ∷ after) (length before) v ≡ before ++ v ∷ after
set-next [] after old v = refl
set-next (x ∷ before) after old v = ap (◌∷◌ x) (set-next before after old v)

-- One option and its value.
parse_option :
    (i : ℕ) (value : Bytes) (rest values : List Bytes)
    → i < 22
    → get_or values i [] ≡ []
    → parse_arguments none (option_name i ∷ value ∷ rest) (record no_options { values = values })
      ≡ parse_arguments none rest (record no_options { values = set values i value })
unfolding parse_arguments
parse_option i value rest values below free =
    let name = argument_of-option_name i below in
    let unused : is_empty (get_or values i []) ≡ true = ap is_empty free in
    rw (parse_arguments, name, unused) refl

-- As many empty values, before others.
blanks : List Bytes → List Bytes → List Bytes
blanks [] after = after
blanks (v ∷ vs) after = [] ∷ blanks vs after

blanks-replicate : (vs after : List Bytes) → blanks vs after ≡ replicate (length vs) [] ++ after
unfolding blanks
blanks-replicate [] after = refl
blanks-replicate (v ∷ vs) after = ap (◌∷◌ []) (blanks-replicate vs after)

abbrev options_of : List Bytes → Options
options_of values = record { geometry_test = false; help = false; values = values }

parse_print :
    (before values after : List Bytes)
    → length before + length values ≤ 22
    → parse_arguments none
        (print_from (length before) values)
        (options_of (before ++ blanks values after))
      ≡ parsed (options_of (before ++ (values ++ after)))
unfolding blanks parse_arguments
parse_print before [] after room = refl
parse_print before (value ∷ values) after room =
    let next =
      parse_print (before ++ value ∷ []) values after
        (omega (arith, length-append before (value ∷ []), room)) in
    let one = length-append before (value ∷ []) in
    let count : length (before ++ value ∷ []) ≡ suc (length before) = omega (arith, one) in
    parse_option (length before) value (print_from (suc (length before)) values) _
      (omega (arith, room)) (get_or-next before (blanks values after) [])
    ∙ ap (λ vs. parse_arguments none (print_from (suc (length before)) values) (options_of vs))
        (set-next before (blanks values after) [] value
          ∙ sym (append_assoc before (value ∷ []) (blanks values after)))
    ∙ ap
        (λ i.
          parse_arguments none (print_from i values)
            (options_of ((before ++ value ∷ []) ++ blanks values after)))
        (sym count)
    ∙ next
    ∙ ap (λ vs. parsed (options_of vs)) (append_assoc before (value ∷ []) (values ++ after))

all_below_complete :
    (bound : ℕ) (test : ℕ → Bool)
    → ((i : ℕ) → i < bound → test i ≡ true)
    → all_below bound test ≡ true
unfolding all_below
all_below_complete zero test passes = refl
all_below_complete (suc bound) test passes = ground (
  arith,
  all_below_complete bound test (λ i below. passes i (omega (arith, below))),
  passes bound (omega arith),
)

get_or-front :
    (values after : List Bytes) (i : ℕ)
    → i < length values
    → get_or (values ++ after) i [] ≡ get_or values i []
get_or-front [] after i below = absurd (omega arith)
get_or-front (v ∷ values) after zero below = refl
get_or-front (v ∷ values) after (suc i) below = get_or-front values after i (omega arith)

get_or-past :
    (values after : List Bytes) (i k : ℕ)
    → k ≡ length values + i
    → get_or (values ++ after) k [] ≡ get_or after i []
get_or-past [] after i k e = let same : k ≡ i = omega (arith, e) in ap (λ n. get_or after n []) same
get_or-past (v ∷ values) after i zero e = absurd (omega (arith, e))
get_or-past (v ∷ values) after i (suc k) e = get_or-past values after i k (omega (arith, e))

-- The checks on options of which the required ones are given.
check_given :
    (argc : ℕ) (values : List Bytes)
    → length values ≡ required_count
    → ((i : ℕ) → i < required_count → is_empty (get_or values i []) ≡ false)
    → check_options argc (options_of (values ++ [] ∷ [] ∷ []))
      ≡ parsed (options_of (values ++ [] ∷ [] ∷ []))
unfolding check_options
check_given argc values count some_values =
    let both = values ++ [] ∷ [] ∷ [] in
    let manifest : get_or both validate_manifest [] ≡ [] =
      get_or-past values _ 0 20 (omega (arith, count)) in
    let palette : get_or both validate_palette [] ≡ [] =
      get_or-past values _ 1 21 (omega (arith, count)) in
    let all : all_below required_count (λ i. not (is_empty (get_or both i []))) ≡ true =
      all_below_complete required_count _ (λ i below.
        ap (λ v. not (is_empty v)) (get_or-front values _ i (omega (arith, below, count)))
        ∙ ap not (some_values i below)) in
    rw (manifest, palette, all) refl

-- If there are twenty values, none of them empty, then the command line that gives each required
-- option once, in order, with its value is accepted, and every option has its value then; the two that
-- validate a file are left empty.
pub parse_options-print_from :
    (values : List Bytes)
    → length values ≡ required_count
    → ((i : ℕ) → i < required_count → is_empty (get_or values i []) ≡ false)
    → parse_options (print_from 0 values)
      ≡ parsed (record { geometry_test = false; help = false; values = values ++ [] ∷ [] ∷ [] })
unfolding parse_options check_parsed
parse_options-print_from values count some_values =
    let empty : blanks values ([] ∷ [] ∷ []) ≡ replicate 22 [] =
      blanks-replicate values _ ∙ ap (λ n. replicate n [] ++ [] ∷ [] ∷ []) count in
    let argc = suc (length (print_from 0 values)) in
    ap (λ vs. check_parsed argc (parse_arguments none (print_from 0 values) (options_of vs)))
      (sym empty)
    ∙ ap (check_parsed argc) (parse_print [] values ([] ∷ [] ∷ []) (omega (arith, count)))
    ∙ check_given argc values count some_values
