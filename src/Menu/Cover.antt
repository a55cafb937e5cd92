-- ===== src/Menu/Cover.antt =====
-- `load_ppm_cover_image`, the reader of a P6 image of xterm colours: the file by Kernel, then its
-- header, token by token, and its pixels. An offset into the bytes is what stands behind it.
pub mod Tokens
pub mod RoundTrip
use nes_deck.Prelude.{
  ℕ, zero, suc, ◌+◌, ◌-◌, ◌*◌, Bool, true, false, not, ◌&&◌, ◌||◌, List, [], ◌∷◌, ◌++◌, Option,
  none, some, ltb, leb, within, ◌==◌, ◌!=◌, if◌then◌else◌, Bytes, codes, equal, length,
}
use nes_deck.Catalog.Color.{rgb, pixel, is_xterm_color}
use nes_deck.Kernel.{
  Kernel, OpenResult, opened, missing, open_failed, ReadResult, chunk, read_interrupted,
  read_failed, StatResult, stat_of, stat_failed,
}
use nes_deck.MenuState.Number.{to_string}
use nes_deck.Text.{is_space}

pub record CoverImage : Type 0 where
  pub width : ℕ
  pub height : ℕ
  pub pixels : List ℕ

-- The branch that words the error; a cover that is missing gives none.
pub data CoverError : Type 0 where
  no_cover cannot_open not_small_file cannot_read bad_header wrong_size foreign_color : CoverError

pub data LoadedCover : Type 0 where
  loaded : CoverImage → LoadedCover
  refused : CoverError → LoadedCover

abbrev pub max_width : ℕ
max_width = 600

abbrev pub max_height : ℕ
max_height = 378

abbrev pub max_bytes : ℕ
max_bytes = 1024 + max_width * max_height * 3

-- The loop over white space and comments, from inside a comment or not. A comment ends before its
-- line feed, which is white space.
unfoldable pub skip_blank : Bool → Bytes → Bytes
skip_blank comment [] = []
skip_blank comment (c ∷ cs) =
    let rest = skip_blank (if comment then c != 10 else c == b'#') cs in
    if comment || is_space c || c == b'#' then rest else c ∷ cs

-- The loop over the characters of a token.
unfoldable pub cut_token : Bytes → Bytes × Bytes
cut_token [] = ([], [])
cut_token (c ∷ cs) =
    let rest = cut_token cs in
    if is_space c || c == b'#' then ([], c ∷ cs) else (c ∷ rest.0, rest.1)

-- The token and what stands behind it.
unfoldable pub next_ppm_token : Bytes → Option (Bytes × Bytes)
next_ppm_token bytes =
    let (token, rest) = cut_token (skip_blank false bytes) in
    if length token == 0 || ltb 32 (length token) then none else some (token, rest)

-- The loop over the digits, which gives up above the maximum.
unfoldable pub dimension_loop : ℕ → ℕ → Bytes → Option ℕ
dimension_loop maximum parsed [] = some parsed
dimension_loop maximum parsed (c ∷ cs) =
    let next = parsed * 10 + (c - b'0') in
    let rest = dimension_loop maximum next cs in
    if not (within b'0' b'9' c) then none else if ltb maximum next then none else rest

unfoldable pub parse_positive_dimension : ℕ → Bytes → Option ℕ
parse_positive_dimension maximum text =
    if length text == 0 then none else elim (dimension_loop maximum 0 text) [
      | none ↦ none
      | some parsed ↦
          if ltb parsed 1 || not (equal (to_string parsed) text) then none else some parsed
    ]

-- One white-space byte behind the header, or a return with a line feed.
unfoldable pub end_header : Bytes → Option Bytes
end_header [] = none
end_header (c ∷ []) = if is_space c then some [] else none
end_header (c ∷ d ∷ cs) =
    if not (is_space c) then none else if c == 13 && d == 10 then some cs else some (d ∷ cs)

-- The `&&` chain of the header; each part stands on the one before.
unfoldable pub token_is : Bytes → Bytes → Option Bytes
token_is word bytes = elim (next_ppm_token bytes) [
  | none ↦ none
  | some (token, rest) ↦ if equal token word then some rest else none
]

unfoldable pub token_dimension : ℕ → Bytes → Option (ℕ × Bytes)
token_dimension maximum bytes = elim (next_ppm_token bytes) [
  | none ↦ none
  | some (token, rest) ↦ elim (parse_positive_dimension maximum token) [
    | none ↦ none
    | some value ↦ some (value, rest)
  ]
]

-- The width, the height and the bytes behind the header.
unfoldable pub header_end : ℕ → ℕ → Bytes → Option (ℕ × ℕ × Bytes)
header_end width height text = elim (token_is (codes "255") text) [
  | none ↦ none
  | some rest ↦ elim (end_header rest) [ none ↦ none | some bytes ↦ some (width, height, bytes) ]
]

unfoldable pub header_height : ℕ → Bytes → Option (ℕ × ℕ × Bytes)
header_height width bytes = elim (token_dimension max_height bytes) [
  | none ↦ none
  | some (height, rest) ↦ header_end width height rest
]

unfoldable pub header_width : Bytes → Option (ℕ × ℕ × Bytes)
header_width bytes = elim (token_dimension max_width bytes) [
  | none ↦ none
  | some (width, rest) ↦ header_height width rest
]

unfoldable pub ppm_header : Bytes → Option (ℕ × ℕ × Bytes)
ppm_header bytes = elim (token_is (codes "P6") bytes) [
  | none ↦ none
  | some rest ↦ header_width rest
]

-- The loop over the pixels, three bytes each; the length was tested before.
unfoldable pub pixels_loop : Bytes → Option (List ℕ)
pixels_loop (r ∷ g ∷ b ∷ bytes) = elim (pixels_loop bytes) [
  | none ↦ none
  | some rest ↦ if not (is_xterm_color (rgb r g b)) then none else some (pixel (rgb r g b) ∷ rest)
]
pixels_loop _ = some []

unfoldable pub image_of : ℕ → ℕ → Bytes → LoadedCover
image_of width height bytes =
    if length bytes != width * height * 3 then refused wrong_size else elim (pixels_loop bytes) [
      | none ↦ refused foreign_color
      | some pixels ↦ loaded (record { width = width; height = height; pixels = pixels })
    ]

-- What is made of the bytes of the file.
unfoldable pub decode_cover : Bytes → LoadedCover
decode_cover bytes = elim (ppm_header bytes) [
  | none ↦ refused bad_header
  | some (width, height, rest) ↦ image_of width height rest
]

module _ (k : Kernel) where
  open k use {Disk, pending, open_file, stat, read, close}

  -- What the reading loop does on each answer of `read`; `rest` is the loop itself.
  unfoldable pub fill_turn :
      (Bytes → Disk → Bytes × Disk) → Bytes → ReadResult → Disk → Bytes × Disk
  fill_turn rest got (chunk []) d = (got, d)
  fill_turn rest got (chunk (c ∷ cs)) d = rest (got ++ c ∷ cs) d
  fill_turn rest got read_interrupted d = rest got d
  fill_turn rest got read_failed d = (got, d)

  -- The loop that fills a buffer of `size` bytes, of which `got` are used.
  unfoldable pub fill_loop : ℕ → Bytes → ℕ → Bytes → Disk → Bytes × Disk
  fill_loop zero path size got d = (got, d)
  fill_loop (suc fuel) path size got d =
      if ltb (length got) size
      then (let (r, d') = read path (length got) (size - length got) d in
          fill_turn (fill_loop fuel path size) got r d')
      else (got, d)

  -- After `fstat`. Each turn of the loop reads a byte or uses up a pending signal, or is the last.
  unfoldable pub cover_file : Bytes → StatResult → Disk → LoadedCover × Disk
  cover_file path stat_failed d = (refused not_small_file, (close path d).1)
  cover_file path (stat_of regular size) d =
      if not regular || ltb size 12 || ltb max_bytes size
      then (refused not_small_file, (close path d).1)
      else let (bytes, d1) = fill_loop (size + pending d) path size [] d in
        let (closed, d2) = close path d1 in
        (if length bytes != size || not closed then refused cannot_read else decode_cover bytes, d2)

  unfoldable pub opened_cover : Bytes → OpenResult → Disk → LoadedCover × Disk
  opened_cover path missing d = (refused no_cover, d)
  opened_cover path open_failed d = (refused cannot_open, d)
  opened_cover path opened d = let (s, d') = stat path d in cover_file path s d'

  unfoldable pub load_ppm_cover_image : Bytes → Disk → LoadedCover × Disk
  load_ppm_cover_image path d = let (r, d') = open_file path d in opened_cover path r d'
