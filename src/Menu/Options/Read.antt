-- ===== src/Menu/Options/Read.antt =====
-- Where the values of the options come from.
use nes_deck.Prelude.{
  ℕ, zero, suc, ◌+◌, ◌≡◌, refl, sym, ap, subst, ◌∙◌, arith, ◌⊎◌, inl, inr, true, Bool-cases, not,
  ◌||◌, List, [], ◌∷◌, Option, none, some, get_or, set, Bytes, codes, equal, equal_iff,
}
use nes_deck.Menu.Options.{
  option_names, option_name, Options, parsed, failed, OptionsError, Argument, geometry_argument,
  help_argument, unknown_argument, value_argument, is_empty, find_option, argument_of,
  parse_arguments,
}

-- A name and a value that follow one another in the arguments.
abbrev pub Given : Bytes → Bytes → List Bytes → Type 0
Given name value [] = ⊥
Given name value (a ∷ []) = ⊥
Given name value (a ∷ b ∷ rest) = ((a ≡ name) × (b ≡ value)) ⊎ Given name value (b ∷ rest)

Given-later :
    (name value a : Bytes) (rest : List Bytes) → Given name value rest → Given name value (a ∷ rest)
Given-later name value a [] given = absurd given
Given-later name value a (b ∷ rest) given = inr given

value-injective : (i j : ℕ) → value_argument i ≡ value_argument j → i ≡ j
value-injective i j e = cc

unknown-ne-value : (k : ℕ) → unknown_argument ≡ value_argument k → ⊥
unknown-ne-value k e = cc

geometry-ne-value : (k : ℕ) → geometry_argument ≡ value_argument k → ⊥
geometry-ne-value k e = cc

help-ne-value : (k : ℕ) → help_argument ≡ value_argument k → ⊥
help-ne-value k e = cc

find_option-name :
    (names : List Bytes) (base k : ℕ) (argument : Bytes)
    → find_option names base argument ≡ value_argument k
    → (i : ℕ) × (k ≡ base + i) × (argument ≡ get_or names i [])
unfolding find_option
find_option-name [] base k argument e = absurd (unknown-ne-value k e)
find_option-name (name ∷ names) base k argument e = elim (Bool-cases (equal argument name)) [
  | inl same ↦
      let here = value-injective base k (rw same at e) in
      (0, omega (arith, here), (equal_iff argument name).0 same)
  | inr other ↦
      let (i, far, found) = find_option-name names (suc base) k argument (rw other at e) in
      (suc i, omega (arith, far), found)
]

argument_of-name :
    (argument : Bytes) (k : ℕ) → argument_of argument ≡ value_argument k → argument ≡ option_name k
unfolding argument_of
argument_of-name argument k e = elim (Bool-cases (equal argument (codes "--geometry-test"))) [
  | inl geometry ↦ absurd (geometry-ne-value k (rw geometry at e))
  | inr other ↦ elim (Bool-cases (equal argument (codes "--help") || equal argument (codes "-h"))) [
    | inl help ↦ absurd (help-ne-value k (rw (other, help) at e))
    | inr plain ↦
        let (i, same, found) =
          find_option-name option_names 0 k argument (rw (other, plain) at e) in
        let e' : i ≡ k = omega (arith, same) in found ∙ ap option_name e'
  ]
]

-- The arguments that are left, with the name of the option that waits.
abbrev pub waiting : Option ℕ → List Bytes → List Bytes
waiting none arguments = arguments
waiting (some i) arguments = option_name i ∷ arguments

get_or-set :
    (values : List Bytes) (i j : ℕ) (value : Bytes)
    → (get_or (set values i value) j [] ≡ get_or values j [])
      ⊎ ((i ≡ j) × (get_or (set values i value) j [] ≡ value))
get_or-set [] i j value = inl refl
get_or-set (x ∷ xs) zero zero value = inr (refl, refl)
get_or-set (x ∷ xs) zero (suc j) value = inl refl
get_or-set (x ∷ xs) (suc i) zero value = inl refl
get_or-set (x ∷ xs) (suc i) (suc j) value = elim (get_or-set xs i j value) [
  | inl kept ↦ inl kept
  | inr (e, new) ↦ inr (ap suc e, new)
]

-- A value is the one from before, or stands after its name.
abbrev pub Follows : Options → Options → List Bytes → ℕ → Type 0
Follows before after arguments j =
    (get_or after.values j [] ≡ get_or before.values j [])
    ⊎ Given (option_name j) (get_or after.values j []) arguments

pub failed-ne-parsed : (why : OptionsError) (r : Options) → failed why ≡ parsed r → ⊥
failed-ne-parsed why r e = cc

pub parsed-injective : (o r : Options) → parsed o ≡ parsed r → o ≡ r
parsed-injective o r e = cc

Argument-cases :
    (k : Argument)
    → (k ≡ geometry_argument)
      ⊎ ((k ≡ help_argument) ⊎ ((k ≡ unknown_argument) ⊎ ((i : ℕ) × (k ≡ value_argument i))))
Argument-cases geometry_argument = inl refl
Argument-cases help_argument = inr (inl refl)
Argument-cases unknown_argument = inr (inr (inl refl))
Argument-cases (value_argument i) = inr (inr (inr (i, refl)))

Follows-later :
    (o r : Options) (a : Bytes) (arguments : List Bytes) (j : ℕ)
    → Follows o r arguments j
    → Follows o r (a ∷ arguments) j
Follows-later o r a arguments j (inl kept) = inl kept
Follows-later o r a arguments j (inr given) = inr (Given-later _ _ a arguments given)

pub Follows-parse :
    (pending : Option ℕ) (arguments : List Bytes) (o r : Options)
    → parse_arguments pending arguments o ≡ parsed r
    → (j : ℕ) → Follows o r (waiting pending arguments) j
unfolding parse_arguments
Follows-parse none [] o r e j = inl (ap (λ p. get_or p.values j []) (sym (parsed-injective o r e)))
Follows-parse (some i) [] o r e j = absurd (failed-ne-parsed _ r e)
Follows-parse none (a ∷ arguments) o r e j = elim (Argument-cases (argument_of a)) [
  | inl geometry ↦
      Follows-later (record o { geometry_test = true }) r a arguments j
        (Follows-parse none arguments (record o { geometry_test = true }) r
          (rw (parse_arguments, geometry) at e) j)
  | inr (inl help) ↦
      Follows-later (record o { help = true }) r a arguments j
        (Follows-parse none arguments (record o { help = true }) r (rw (parse_arguments, help) at e)
          j)
  | inr (inr (inl unknown)) ↦ absurd (failed-ne-parsed _ r (rw (parse_arguments, unknown) at e))
  | inr (inr (inr (i, is))) ↦
      subst (λ name. Follows o r (name ∷ arguments) j) (sym (argument_of-name a i is))
        (Follows-parse (some i) arguments o r (rw (parse_arguments, is) at e) j)
]
Follows-parse (some i) (value ∷ arguments) o r e j =
    elim (Bool-cases (not (is_empty (get_or o.values i [])))) [
      | inl twice ↦ absurd (failed-ne-parsed _ r (rw twice at e))
      | inr free ↦
          elim (Follows-parse none arguments (record o { values = set o.values i value }) r
            (rw free at e) j) [
              | inl kept ↦ elim (get_or-set o.values i j value) [
                | inl same ↦ inl (kept ∙ same)
                | inr (here, new) ↦ inr (inl (ap option_name here, sym (kept ∙ new)))
              ]
              | inr given ↦ inr (inr (Given-later _ _ value arguments given))
            ]
    ]
