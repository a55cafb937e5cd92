-- ===== src/Menu/Options/Given.antt =====
-- What an accepted command line has given.
use nes_deck.Prelude.{
  ℕ, zero, suc, ◌<◌, ◌≡◌, refl, ap, subst, ◌∙◌, arith, ◌⊎◌, inl, inr, Bool, true, false, not, ◌||◌,
  List, [], ◌∷◌, none, ◌!=◌, if◌then◌else◌, length, get_or, replicate, Bytes,
}
use nes_deck.Prelude.Bits.{all_below, all_below_sound}
use nes_deck.Menu.Options.{
  option_name, required_count, validate_manifest, validate_palette, Options, no_options, Parsed,
  parsed, failed, not_alone, is_empty, parse_arguments, check_options, check_parsed, parse_options,
}
use nes_deck.Menu.Options.Read.{Given, failed-ne-parsed, parsed-injective, Follows-parse}

-- Whether a file is to be validated.
abbrev pub validates : Options → Bool
validates o =
    not (is_empty (get_or o.values validate_manifest []))
    || not (is_empty (get_or o.values validate_palette []))

-- Help; a test or a validation, alone; or all the options that are required.
abbrev pub Complete : ℕ → Options → Type 0
Complete count o =
    (o.help ≡ true)
    ⊎ (((o.geometry_test ≡ true) × (count ≡ 1))
        ⊎ (((validates o ≡ true) × (count ≡ 2))
            ⊎ ((i : ℕ) → i < required_count → is_empty (get_or o.values i []) ≡ false)))

not_empty : (b : Bool) → not b ≡ true → b ≡ false
not_empty true e = cc
not_empty false e = refl

all_given : (b : Bool) → not b ≡ false → b ≡ true
all_given true e = refl
all_given false e = cc

abbrev is_given : Options → ℕ → Bool
is_given o i = not (is_empty (get_or o.values i []))

alone :
    (b : Bool) (o r : Options)
    → (if b then failed not_alone else parsed o) ≡ parsed r
    → (b ≡ false) × (o ≡ r)
alone true o r e = absurd (failed-ne-parsed _ r e)
alone false o r e = (refl, parsed-injective o r e)

branch :
    (b : Bool) (x y : Parsed) (r : Options)
    → (if b then x else y) ≡ parsed r
    → ((b ≡ true) × (x ≡ parsed r)) ⊎ ((b ≡ false) × (y ≡ parsed r))
branch true x y r e = inl (refl, e)
branch false x y r e = inr (refl, e)

check_options-Complete :
    (count : ℕ) (o r : Options)
    → check_options (suc count) o ≡ parsed r
    → (o ≡ r) × Complete count o
unfolding check_options
check_options-Complete count o r e = elim (branch o.help _ _ r e) [
  | inl (help, e1) ↦ (parsed-injective o r e1, inl help)
  | inr (no_help, e1) ↦ elim (branch o.geometry_test _ _ r e1) [
    | inl (geometry, e2) ↦
        let (short, same) = alone (suc count != 2) o r e2 in
        (same, inr (inl (geometry, ground (arith, short))))
    | inr (plain, e2) ↦
        elim (branch (not (is_empty (get_or o.values validate_manifest []))) _ _ r e2) [
          | inl (manifest, e3) ↦
              let (short, same) = alone (suc count != 3) o r e3 in
              (same, inr (inr (inl (ground (arith, manifest), ground (arith, short)))))
          | inr (no_manifest, e3) ↦
              elim (branch (not (is_empty (get_or o.values validate_palette []))) _ _ r e3) [
                | inl (palette, e4) ↦
                    let (short, same) = alone (suc count != 3) o r e4 in
                    (same, inr (inr (inl (ground (arith, palette), ground (arith, short)))))
                | inr (no_palette, e4) ↦
                    elim (branch (not (all_below required_count (is_given o))) _ _ r e4) [
                      | inl (missing, e5) ↦ absurd (failed-ne-parsed _ r e5)
                      | inr (all, e5) ↦ (
                        parsed-injective o r e5,
                        inr (
                            inr (
                              inr (λ i below. not_empty _ (
                                all_below_sound required_count (is_given o) i (all_given _ all)
                                  below)))),
                      )
                    ]
              ]
        ]
  ]
]

-- What an accepted command line has given.
pub record Accepts (arguments : List Bytes) (o : Options) : Type 0 where
  pub given :
      (i : ℕ)
      → is_empty (get_or o.values i []) ≡ false
      → Given (option_name i) (get_or o.values i []) arguments
  pub complete : Complete (length arguments) o

nothing_given : (n i : ℕ) → get_or {A = Bytes} (replicate n []) i [] ≡ []
nothing_given zero i = refl
nothing_given (suc n) zero = refl
nothing_given (suc n) (suc i) = nothing_given n i

checked :
    (argc : ℕ) (p : Parsed) (r : Options)
    → check_parsed argc p ≡ parsed r
    → (o : Options) × (p ≡ parsed o) × (check_options argc o ≡ parsed r)
unfolding check_parsed
checked argc (failed why) r e = absurd (failed-ne-parsed why r e)
checked argc (parsed o) r e = (o, refl, e)

empty-is_empty : (value : Bytes) → value ≡ [] → is_empty value ≡ false → ⊥
empty-is_empty [] e f = cc
empty-is_empty (c ∷ cs) e f = cc

-- If a command line is accepted, then each value that it leaves not empty stands in it directly after
-- the name of its option; and it asks for help, or for the geometry test or a validation with nothing
-- beside, or has given all the options that are required.
pub parse_options-Accepts :
    (arguments : List Bytes) (o : Options)
    → parse_options arguments ≡ parsed o
    → Accepts arguments o
unfolding parse_options
parse_options-Accepts arguments r e =
    let (o, read, e') =
      checked (suc (length arguments)) (parse_arguments none arguments no_options) r e in
    let (same, complete) = check_options-Complete (length arguments) o r e' in
    record {
      given = λ i some_value.
          elim (Follows-parse none arguments no_options r (read ∙ ap parsed same) i) [
            | inl kept ↦ absurd (empty-is_empty _ (kept ∙ nothing_given 22 i) some_value)
            | inr given ↦ given
          ];
      complete = subst (Complete (length arguments)) same complete;
    }
