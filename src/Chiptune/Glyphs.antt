-- ===== src/Chiptune/Glyphs.antt =====
-- The letters of the screen: `glyph_rows` of src/chiptune_deck.cpp, the seven rows of five pixels of
-- each character.
use nes_deck.Prelude.{ℕ, ◌+◌, ◌-◌, List, [], ◌∷◌, ◌==◌, within, if◌then◌else◌, get_or}

abbrev digits : List (List ℕ)
digits =
    (14 ∷ 17 ∷ 19 ∷ 21 ∷ 25 ∷ 17 ∷ 14 ∷ [])
    ∷ (4 ∷ 12 ∷ 4 ∷ 4 ∷ 4 ∷ 4 ∷ 14 ∷ [])
    ∷ (14 ∷ 17 ∷ 1 ∷ 2 ∷ 4 ∷ 8 ∷ 31 ∷ [])
    ∷ (30 ∷ 1 ∷ 1 ∷ 14 ∷ 1 ∷ 1 ∷ 30 ∷ [])
    ∷ (2 ∷ 6 ∷ 10 ∷ 18 ∷ 31 ∷ 2 ∷ 2 ∷ [])
    ∷ (31 ∷ 16 ∷ 16 ∷ 30 ∷ 1 ∷ 1 ∷ 30 ∷ [])
    ∷ (14 ∷ 16 ∷ 16 ∷ 30 ∷ 17 ∷ 17 ∷ 14 ∷ [])
    ∷ (31 ∷ 1 ∷ 2 ∷ 4 ∷ 8 ∷ 8 ∷ 8 ∷ [])
    ∷ (14 ∷ 17 ∷ 17 ∷ 14 ∷ 17 ∷ 17 ∷ 14 ∷ [])
    ∷ (14 ∷ 17 ∷ 17 ∷ 15 ∷ 1 ∷ 1 ∷ 14 ∷ [])
    ∷ []

abbrev letters : List (List ℕ)
letters =
    (14 ∷ 17 ∷ 17 ∷ 31 ∷ 17 ∷ 17 ∷ 17 ∷ [])
    ∷ (30 ∷ 17 ∷ 17 ∷ 30 ∷ 17 ∷ 17 ∷ 30 ∷ [])
    ∷ (14 ∷ 17 ∷ 16 ∷ 16 ∷ 16 ∷ 17 ∷ 14 ∷ [])
    ∷ (30 ∷ 17 ∷ 17 ∷ 17 ∷ 17 ∷ 17 ∷ 30 ∷ [])
    ∷ (31 ∷ 16 ∷ 16 ∷ 30 ∷ 16 ∷ 16 ∷ 31 ∷ [])
    ∷ (31 ∷ 16 ∷ 16 ∷ 30 ∷ 16 ∷ 16 ∷ 16 ∷ [])
    ∷ (14 ∷ 17 ∷ 16 ∷ 23 ∷ 17 ∷ 17 ∷ 15 ∷ [])
    ∷ (17 ∷ 17 ∷ 17 ∷ 31 ∷ 17 ∷ 17 ∷ 17 ∷ [])
    ∷ (14 ∷ 4 ∷ 4 ∷ 4 ∷ 4 ∷ 4 ∷ 14 ∷ [])
    ∷ (7 ∷ 2 ∷ 2 ∷ 2 ∷ 18 ∷ 18 ∷ 12 ∷ [])
    ∷ (17 ∷ 18 ∷ 20 ∷ 24 ∷ 20 ∷ 18 ∷ 17 ∷ [])
    ∷ (16 ∷ 16 ∷ 16 ∷ 16 ∷ 16 ∷ 16 ∷ 31 ∷ [])
    ∷ (17 ∷ 27 ∷ 21 ∷ 21 ∷ 17 ∷ 17 ∷ 17 ∷ [])
    ∷ (17 ∷ 25 ∷ 21 ∷ 19 ∷ 17 ∷ 17 ∷ 17 ∷ [])
    ∷ (14 ∷ 17 ∷ 17 ∷ 17 ∷ 17 ∷ 17 ∷ 14 ∷ [])
    ∷ (30 ∷ 17 ∷ 17 ∷ 30 ∷ 16 ∷ 16 ∷ 16 ∷ [])
    ∷ (14 ∷ 17 ∷ 17 ∷ 17 ∷ 21 ∷ 18 ∷ 13 ∷ [])
    ∷ (30 ∷ 17 ∷ 17 ∷ 30 ∷ 20 ∷ 18 ∷ 17 ∷ [])
    ∷ (15 ∷ 16 ∷ 16 ∷ 14 ∷ 1 ∷ 1 ∷ 30 ∷ [])
    ∷ (31 ∷ 4 ∷ 4 ∷ 4 ∷ 4 ∷ 4 ∷ 4 ∷ [])
    ∷ (17 ∷ 17 ∷ 17 ∷ 17 ∷ 17 ∷ 17 ∷ 14 ∷ [])
    ∷ (17 ∷ 17 ∷ 17 ∷ 17 ∷ 17 ∷ 10 ∷ 4 ∷ [])
    ∷ (17 ∷ 17 ∷ 17 ∷ 17 ∷ 21 ∷ 21 ∷ 10 ∷ [])
    ∷ (17 ∷ 17 ∷ 10 ∷ 4 ∷ 10 ∷ 17 ∷ 17 ∷ [])
    ∷ (17 ∷ 17 ∷ 10 ∷ 4 ∷ 4 ∷ 4 ∷ 4 ∷ [])
    ∷ (31 ∷ 1 ∷ 2 ∷ 4 ∷ 8 ∷ 16 ∷ 31 ∷ [])
    ∷ []

abbrev space : List ℕ
space = 0 ∷ 0 ∷ 0 ∷ 0 ∷ 0 ∷ 0 ∷ 0 ∷ []

abbrev period : List ℕ
period = 0 ∷ 0 ∷ 0 ∷ 0 ∷ 0 ∷ 6 ∷ 6 ∷ []

abbrev colon : List ℕ
colon = 0 ∷ 6 ∷ 6 ∷ 0 ∷ 6 ∷ 6 ∷ 0 ∷ []

abbrev hyphen : List ℕ
hyphen = 0 ∷ 0 ∷ 0 ∷ 31 ∷ 0 ∷ 0 ∷ 0 ∷ []

abbrev plus : List ℕ
plus = 0 ∷ 4 ∷ 4 ∷ 31 ∷ 4 ∷ 4 ∷ 0 ∷ []

abbrev slash : List ℕ
slash = 1 ∷ 2 ∷ 2 ∷ 4 ∷ 8 ∷ 8 ∷ 16 ∷ []

abbrev pub unknown : List ℕ
unknown = 14 ∷ 17 ∷ 1 ∷ 2 ∷ 4 ∷ 0 ∷ 4 ∷ []

abbrev upper : ℕ → ℕ
upper c = if within b'a' b'z' c then c - b'a' + b'A' else c

abbrev rows_of : ℕ → List ℕ
rows_of c =
    if within b'A' b'Z' c
    then get_or letters (c - b'A') []
    else if within b'0' b'9' c
    then get_or digits (c - b'0') []
    else if c == b' '
    then space
    else if c == b'.'
    then period
    else if c == b':'
    then colon
    else if c == b'-'
    then hyphen
    else if c == b'+'
    then plus
    else if c == b'/'
    then slash
    else unknown

unfoldable pub glyph_rows : ℕ → List ℕ
glyph_rows c = rows_of (upper c)
