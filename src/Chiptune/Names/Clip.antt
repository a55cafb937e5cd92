-- ===== src/Chiptune/Names/Clip.antt =====
-- A text that is clipped can be drawn.
use nes_deck.Prelude.{
  ℕ, zero, suc, ◌-◌, ◌≤◌, ◌≡◌, refl, ap, ap₂, ◌∙◌, min, arith, Bool, true, false, Bool-cases, inl,
  inr, not, ◌||◌, [], ◌∷◌, ◌++◌, All, All-append, leb, ◌==◌, if◌then◌else◌, length, length-append,
  length-take, take, Bytes, codes, equal,
}
use nes_deck.Prelude.Bits.{all_below, all_below_sound}
use nes_deck.Chiptune.Glyphs.{unknown, glyph_rows}
use nes_deck.Chiptune.Names.{is_kept, upper, cleaned, uppercase_ascii, clipped}

abbrev IsKept : ℕ → Type 0
IsKept c = is_kept c ≡ true

-- The screen has letters for it.
abbrev pub IsDrawn : ℕ → Type 0
IsDrawn c = equal (glyph_rows c) unknown ≡ false

-- What is left of a text.
pub record Clips (input : Bytes) (maximum : ℕ) (text : Bytes) : Type 0 where
  pub size : length text ≡ min maximum (length (uppercase_ascii input))
  pub drawn : All IsDrawn text
  pub stable : clipped text maximum ≡ text

kept_drawn : ℕ → Bool
kept_drawn c = not (is_kept c) || not (equal (glyph_rows c) unknown)

all_kept_drawn : all_below 256 kept_drawn ≡ true
unfolding all_below kept_drawn glyph_rows equal
all_kept_drawn = refl

implied : (a b : Bool) → (not a || not b) ≡ true → a ≡ true → b ≡ false
implied true true passed holds = cc
implied true false passed holds = refl
implied false true passed holds = cc
implied false false passed holds = refl

kept-IsDrawn : (c : ℕ) → IsKept c → IsDrawn c
unfolding kept_drawn
kept-IsDrawn c kept =
    let passed = all_below_sound 256 kept_drawn c all_kept_drawn (ground (arith, kept)) in
    implied (is_kept c) _ passed kept

All-IsDrawn : (text : Bytes) → All IsKept text → All IsDrawn text
All-IsDrawn [] all = tt
All-IsDrawn (c ∷ cs) (kept, all) = (kept-IsDrawn c kept, All-IsDrawn cs all)

if_IsKept : (b : Bool) → All IsKept (if b then b' ' ∷ [] else [])
if_IsKept true = (refl, tt)
if_IsKept false = tt

cleaned-IsKept : (c : ℕ) → All IsKept (cleaned c)
cleaned-IsKept c = elim (Bool-cases (is_kept c)) [
  | inl kept ↦ rw kept (kept, tt)
  | inr other ↦ rw other (if_IsKept (c == b'_' || c == b'\t'))
]

uppercase_ascii-IsKept : (input : Bytes) → All IsKept (uppercase_ascii input)
unfolding uppercase_ascii
uppercase_ascii-IsKept [] = tt
uppercase_ascii-IsKept (c ∷ cs) =
    All-append IsKept (cleaned (upper c)) _ (cleaned-IsKept (upper c)) (uppercase_ascii-IsKept cs)

kept_upper : (c : ℕ) → IsKept c → upper c ≡ c
kept_upper c kept = ground (arith, kept)

kept_cleaned : (c : ℕ) → IsKept c → cleaned (upper c) ≡ c ∷ []
kept_cleaned c kept = ap cleaned (kept_upper c kept) ∙ rw kept refl

uppercase_ascii_same : (text : Bytes) → All IsKept text → uppercase_ascii text ≡ text
unfolding uppercase_ascii
uppercase_ascii_same [] all = refl
uppercase_ascii_same (c ∷ cs) (kept, all) =
    ap₂ ◌++◌ (kept_cleaned c kept) (uppercase_ascii_same cs all)

All-take : (n : ℕ) (text : Bytes) → All IsKept text → All IsKept (take n text)
All-take zero text all = tt
All-take (suc n) [] all = tt
All-take (suc n) (c ∷ cs) (kept, all) = (kept, All-take n cs all)

-- What `clipped` does with a cleaned text.
abbrev cut : Bytes → ℕ → Bytes
cut clean maximum =
    if leb (length clean) maximum
    then clean
    else if leb maximum 3
    then take maximum clean
    else take (maximum - 3) clean ++ codes "..."

record Cuts (clean : Bytes) (maximum : ℕ) (text : Bytes) : Type 0 where
  size : length text ≡ min maximum (length clean)
  kept : All IsKept text

cut-Cuts : (clean : Bytes) (maximum : ℕ) → All IsKept clean → Cuts clean maximum (cut clean maximum)
cut-Cuts clean maximum all = elim (Bool-cases (leb (length clean) maximum)) [
  | inl short ↦ rw short (record { size = ground (arith, short); kept = all })
  | inr long ↦ elim (Bool-cases (leb maximum 3)) [
    | inl few ↦
        rw (long, few)
          (record { size = length-take maximum clean; kept = All-take maximum clean all })
    | inr many ↦
        rw (long, many)
          (record {
            size = ground (
              arith,
              length-append (take (maximum - 3) clean) (codes "..."),
              length-take (maximum - 3) clean,
              long,
              many,
            );
            kept =
                All-append IsKept (take (maximum - 3) clean) _ (All-take (maximum - 3) clean all)
                  (refl, (refl, (refl, tt)));
          })
  ]
]

cut_same : (text : Bytes) (maximum : ℕ) → length text ≤ maximum → cut text maximum ≡ text
cut_same text maximum short =
    let e : leb (length text) maximum ≡ true = ground (arith, short) in rw e refl

-- A text of any bytes is clipped to the given number of characters, or to as many as are left once
-- it is cleaned where those are fewer; the screen has letters for all of them, and clipping it again
-- changes nothing.
pub clipped-Clips : (input : Bytes) (maximum : ℕ) → Clips input maximum (clipped input maximum)
unfolding clipped
clipped-Clips input maximum =
    let cuts = cut-Cuts (uppercase_ascii input) maximum (uppercase_ascii-IsKept input) in
    record {
      size = cuts.size;
      drawn = All-IsDrawn _ cuts.kept;
      stable =
          ap (λ t. cut t maximum) (uppercase_ascii_same _ cuts.kept)
          ∙ cut_same _ maximum (omega (arith, cuts.size));
    }
