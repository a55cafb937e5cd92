-- ===== src/MenuState/Number.antt =====
-- `std::to_string` of an unsigned number, and `parse_volume_percent`.
use nes_deck.Prelude.{
  ℕ, zero, suc, ◌+◌, ◌-◌, ◌*◌, ◌/◌, ◌%◌, ◌≤◌, ◌≡◌, refl, sym, ◌↔◌, [], ◌∷◌, arith, inl, inr, Bool,
  true, false, not, Option, none, some, Option-cases, Bool-cases, ltb, within, ◌==◌, if◌then◌else◌,
  Bytes, equal, equal_iff,
}
use nes_deck.Prelude.Bits.{all_below, all_below_sound}

-- The decimal digits in front of `rest`, with fuel.
unfoldable pub digits_onto : ℕ → ℕ → Bytes → Bytes
digits_onto zero n rest = rest
digits_onto (suc fuel) n rest =
    let shown = (b'0' + n % 10) ∷ rest in
    elim (n / 10 == 0) [ true ↦ shown | false ↦ digits_onto fuel (n / 10) shown ]

-- Twenty digits are enough for 64 bits.
unfoldable pub to_string : ℕ → Bytes
unfolding digits_onto
to_string n = digits_onto 20 n []

-- The loop over the characters, which gives up above 100.
unfoldable pub parse_digits : ℕ → Bytes → Option ℕ
parse_digits value [] = some value
parse_digits value (c ∷ cs) =
    let next = value * 10 + (c - b'0') in
    let rest = parse_digits next cs in
    if not (within b'0' b'9' c) then none else if ltb 100 next then none else rest

abbrev refused_text : Bytes → ℕ → Bool
refused_text text value = not (equal (to_string value) text)

-- `parse_volume_percent`.
unfoldable pub parse_volume_percent : Bytes → Option ℕ
parse_volume_percent [] = none
parse_volume_percent (c ∷ cs) = elim (parse_digits 0 (c ∷ cs)) [
  | none ↦ none
  | some value ↦ if refused_text (c ∷ cs) value then none else some value
]

parse_digits-le :
    (value : ℕ) (text : Bytes) {v : ℕ} → value ≤ 100 → parse_digits value text ≡ some v → v ≤ 100
unfolding parse_digits
parse_digits-le value [] h e = ground arith
parse_digits-le value (c ∷ cs) {v} h e = ground (
  arith,
  λ (p : value * 10 + (c - b'0') ≤ 100). parse_digits-le (value * 10 + (c - b'0')) cs {v = v} p,
)

-- The table of the 101 numbers.
abbrev reads_back : ℕ → Bool
reads_back n = elim (parse_volume_percent (to_string n)) [ none ↦ false | some v ↦ v == n ]

reads_back_table : all_below 101 reads_back ≡ true
unfolding all_below parse_volume_percent parse_digits to_string equal
reads_back_table = refl

parsed :
    (text : Bytes) (v : ℕ) → parse_volume_percent text ≡ some v → (v ≤ 100) × (text ≡ to_string v)
unfolding parse_volume_percent
parsed [] v h = cc
parsed (c ∷ cs) v h = elim (Option-cases (parse_digits 0 (c ∷ cs))) [
  | inl stop ↦ absurd (ground (arith, stop))
  | inr (value, e) ↦ elim (Bool-cases (equal (to_string value) (c ∷ cs))) [
    | inl same ↦
        let is : value ≡ v = ground (arith, e, same) in
        rw (← is) (
          parse_digits-le 0 (c ∷ cs) {v = value} (omega arith) e,
          sym ((equal_iff (to_string value) (c ∷ cs)).0 same),
        )
    | inr other ↦ absurd (ground (arith, e, other))
  ]
]

reads_back-some : (v : ℕ) → reads_back v ≡ true → parse_volume_percent (to_string v) ≡ some v
reads_back-some v h = ground arith

-- A text is accepted, and as which number, exactly if it is the decimal form that the program
-- itself writes of a number up to 100: no sign, no leading zero, no space.
pub parse_volume_percent_iff :
    (text : Bytes) (v : ℕ)
    → (parse_volume_percent text ≡ some v) ↔ ((v ≤ 100) × (text ≡ to_string v))
parse_volume_percent_iff text v = (
  parsed text v,
  λ (small, e).
      rw e (reads_back-some v (all_below_sound 101 reads_back v reads_back_table (omega arith))),
)
