-- ===== src/Text.antt =====
-- src/menu_text.cpp: the tests and conversions on byte strings that the menu's files go through.
-- A `std::string` is the list of its bytes. `PATH_MAX` is Linux's 4096, and `std::isspace` is that
-- of the C locale.
pub mod Trim
pub mod Tabs
pub mod Utf8
pub mod Display
use nes_deck.Prelude.{
  ℕ, zero, suc, ◌+◌, ◌-◌, ◌*◌, ◌%◌, ◌^◌, min, bit_and, bit_or, Bool, true, false, not, ◌&&◌, ◌||◌,
  List, [], ◌∷◌, ◌++◌, Option, none, some, ltb, leb, within, ◌==◌, ◌!=◌, if◌then◌else◌, length,
  drop, Bytes,
}

abbrev pub path_max : ℕ
path_max = 4096

-- `path[0] == '/'`.
abbrev starts_with_slash : Bytes → Bool
starts_with_slash [] = false
starts_with_slash (c ∷ cs) = c == b'/'

unfoldable pub is_absolute_path : Bytes → Bool
is_absolute_path path = starts_with_slash path && ltb (length path) path_max

abbrev pub is_space : ℕ → Bool
is_space c = within 9 13 c || c == 32

-- The loop over `begin`.
unfoldable pub trim_front : Bytes → Bytes
trim_front [] = []
trim_front (c ∷ cs) = if is_space c then trim_front cs else c ∷ cs

abbrev is_empty : Bytes → Bool
is_empty [] = true
is_empty (c ∷ cs) = false

-- The loop over `end`, which walks back over the spaces that nothing but spaces follows.
unfoldable pub trim_back : Bytes → Bytes
trim_back [] = []
trim_back (c ∷ cs) = let rest = trim_back cs in if is_empty rest && is_space c then [] else c ∷ rest

unfoldable pub trim_ascii_space : Bytes → Bytes
unfolding trim_front trim_back
trim_ascii_space text = trim_back (trim_front text)

-- The bits of a leading byte and the length of the sequence that it opens.
unfoldable pub lead : ℕ → Option (ℕ × ℕ)
lead first =
    if ltb first 0x80
    then some (first, 1)
    else if bit_and first 0xe0 == 0xc0
    then some (bit_and first 0x1f, 2)
    else if bit_and first 0xf0 == 0xe0
    then some (bit_and first 0x0f, 3)
    else if bit_and first 0xf8 == 0xf0
    then some (bit_and first 0x07, 4)
    else none

-- The loop over the `left` continuation bytes, with the text behind the sequence.
unfoldable pub continuation : ℕ → ℕ → Bytes → Option (ℕ × Bytes)
continuation zero codepoint rest = some (codepoint, rest)
continuation (suc left) codepoint [] = none
continuation (suc left) codepoint (next ∷ rest) =
    let more = continuation left (bit_or (codepoint * 2 ^ 6 % 2 ^ 32) (bit_and next 0x3f)) rest in
    if bit_and next 0xc0 != 0x80 then none else more

-- The two tests on a decoded code point.
unfoldable pub refuses_codepoint : ℕ → ℕ → Bool
refuses_codepoint size codepoint =
    (size == 2 && ltb codepoint 0x80)
    || (size == 3 && ltb codepoint 0x800)
    || (size == 4 && ltb codepoint 0x10000)
    || ltb 0x10ffff codepoint
    || (leb 0xd800 codepoint && leb codepoint 0xdfff)
    || ltb codepoint 0x20
    || codepoint == 0x7f

-- One turn of the loop over `i`: the text behind the sequence at its front.
unfoldable pub next_codepoint : Bytes → Option (ℕ × Bytes)
next_codepoint [] = none
next_codepoint (first ∷ rest) = elim (lead first) [
  | none ↦ none
  | some (bits, size) ↦ elim (continuation (size - 1) bits rest) [
    | none ↦ none
    | some (codepoint, behind) ↦
        if refuses_codepoint size codepoint then none else some (codepoint, behind)
  ]
]

-- The loop, with fuel.
unfoldable pub utf8_loop : ℕ → Bytes → ℕ → ℕ → Bool
utf8_loop fuel [] max_codepoints count = true
utf8_loop zero (first ∷ rest) max_codepoints count = false
utf8_loop (suc fuel) (first ∷ rest) max_codepoints count = elim (next_codepoint (first ∷ rest)) [
  | none ↦ false
  | some (codepoint, behind) ↦ elim (ltb max_codepoints (count + 1)) [
    | true ↦ false
    | false ↦ utf8_loop fuel behind max_codepoints (count + 1)
  ]
]

unfoldable pub valid_utf8_text : Bytes → ℕ → Bool → Bool
valid_utf8_text text max_codepoints allow_empty =
    if is_empty text then allow_empty else utf8_loop (length text) text max_codepoints 0

-- How far `display_ascii` steps over a byte that is not ASCII.
unfoldable pub display_length : ℕ → ℕ
display_length first =
    if bit_and first 0xe0 == 0xc0
    then 2
    else if bit_and first 0xf0 == 0xe0
    then 3
    else if bit_and first 0xf8 == 0xf0
    then 4
    else 1

-- `drop` stops at the end of the text, as the `std::min` does.
unfoldable pub display_loop : ℕ → Bytes → Bytes
display_loop fuel [] = []
display_loop zero (first ∷ rest) = []
display_loop (suc fuel) (first ∷ rest) = elim (ltb first 0x80) [
  | true ↦ first ∷ display_loop fuel rest
  | false ↦ b'?' ∷ display_loop fuel (drop (display_length first) (first ∷ rest))
]

unfoldable pub display_ascii : Bytes → Bytes
display_ascii text = display_loop (length text) text

-- What stands before the first tab, and what stands behind it if there is one.
unfoldable pub cut_tab : Bytes → Bytes × Option Bytes
cut_tab [] = ([], none)
cut_tab (c ∷ cs) =
    let (field, behind) = cut_tab cs in if c == b'\t' then ([], some cs) else (c ∷ field, behind)

unfoldable pub split_loop : ℕ → Bytes → List Bytes
split_loop zero line = line ∷ []
split_loop (suc fuel) line =
    let (field, behind) = cut_tab line in
    elim behind [ none ↦ field ∷ [] | some rest ↦ field ∷ split_loop fuel rest ]

unfoldable pub split_tabs : Bytes → List Bytes
unfolding split_loop cut_tab
split_tabs line = split_loop (length line) line
