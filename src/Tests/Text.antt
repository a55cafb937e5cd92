-- ===== src/Tests/Text.antt =====
-- src/menu_text.cpp.
use nes_deck.Prelude.{
  ℕ, ◌<◌, ◌≤◌, ◌≡◌, ◌≢◌, ◌↔◌, refl, arith, inl, true, false, [], ◌∷◌, Bytes, codes,
}
use nes_deck.Text.{
  is_absolute_path, trim_ascii_space, lead, continuation, refuses_codepoint, next_codepoint,
  utf8_loop, valid_utf8_text, display_length, display_loop, display_ascii, cut_tab, split_loop,
  split_tabs,
}
use nes_deck.Text.Tabs.{IsFields, split_tabs_iff}
use nes_deck.Text.Utf8.{IsPrintable}
use nes_deck.Text.Utf8.Valid.{IsPrintableText, valid_utf8_text_iff}

paths : (is_absolute_path (codes "/mnt/data") ≡ true) × (is_absolute_path (codes "mnt") ≡ false)
unfolding is_absolute_path
paths = (refl, refl)

trimmed_run : trim_ascii_space (codes " \ta b\n") ≡ codes "a b"
unfolding trim_ascii_space
trimmed_run = refl

-- "é" and a newline.
abbrev accented : Bytes
accented = 0x41 ∷ 0xc3 ∷ 0xa9 ∷ []

valid_runs :
    (valid_utf8_text accented 64 false ≡ true)
    × (valid_utf8_text (0xc0 ∷ 0xaf ∷ []) 64 false ≡ false)
    × (valid_utf8_text (codes "a\n") 64 false ≡ false)
unfolding valid_utf8_text utf8_loop next_codepoint lead continuation refuses_codepoint
valid_runs = (refl, refl, refl)

display_run : display_ascii accented ≡ codes "A?"
unfolding display_ascii display_loop display_length
display_run = refl

split_run : split_tabs (codes "a\t\tb") ≡ codes "a" ∷ [] ∷ codes "b" ∷ []
unfolding split_tabs split_loop cut_tab
split_run = refl

split_tabs_iff_example :
    (split_tabs (codes "a\tb") ≡ codes "a" ∷ codes "b" ∷ [])
    ↔ IsFields (codes "a\tb") (codes "a" ∷ codes "b" ∷ [])
split_tabs_iff_example = split_tabs_iff (codes "a\tb") (codes "a" ∷ codes "b" ∷ [])

valid_utf8_text_iff_example :
    (valid_utf8_text accented 64 false ≡ true) ↔ ((accented ≢ []) × IsPrintableText 64 accented)
valid_utf8_text_iff_example = valid_utf8_text_iff accented 64 (omega arith)

IsPrintable-of : (c : ℕ) → 0x20 ≤ c → c < 0x7f → IsPrintable c
IsPrintable-of c lo hi = record {
  at_least = lo;
  at_most = omega arith;
  no_delete = omega arith;
  no_surrogate = inl (omega arith);
}
