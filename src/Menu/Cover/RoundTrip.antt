-- ===== src/Menu/Cover/RoundTrip.antt =====
-- A cover that is printed in the P6 form is loaded.
use nes_deck.Prelude.{
  ℕ, ◌*◌, ◌≤◌, ◌≡◌, ◌≢◌, refl, ◌∙◌, arith, true, List, [], ◌∷◌, ◌++◌, some, map, length, Bytes,
  codes, All,
}
use nes_deck.Catalog.Color.{RgbColor, pixel, is_xterm_color}
use nes_deck.MenuState.Number.{to_string}
use nes_deck.Menu.Cover.{
  loaded, token_is, token_dimension, end_header, header_end, header_height, header_width,
  ppm_header, pixels_loop, image_of, decode_cover, max_width, max_height,
}
use nes_deck.Menu.Cover.Tokens.{
  Blank, Blank-StopsToken, IsToken, token_is-append, token_dimension-append, width_Reads,
  height_Reads,
}

-- The blanks in front of the four tokens, the later three not empty.
pub record Layout : Type 0 where
  pub first : Bytes
  pub second : Bytes
  pub third : Bytes
  pub fourth : Bytes

pub record IsLayout (l : Layout) : Type 0 where
  pub first_blank : Blank l.first
  pub second_blank : Blank l.second
  pub third_blank : Blank l.third
  pub fourth_blank : Blank l.fourth
  pub second_some : l.second ≢ []
  pub third_some : l.third ≢ []
  pub fourth_some : l.fourth ≢ []

abbrev channels : List RgbColor → Bytes
channels [] = []
channels (c ∷ cs) = c.red ∷ c.green ∷ c.blue ∷ channels cs

-- The P6 form of an image.
abbrev pub print_cover : Layout → ℕ → ℕ → List RgbColor → Bytes
print_cover l width height colors =
    l.first
    ++ (codes "P6"
        ++ (l.second
            ++ (to_string width
                ++ (l.third
                    ++ (to_string height
                        ++ (l.fourth ++ (codes "255" ++ (10 ∷ channels colors))))))))

abbrev pub AllXterm : List RgbColor → Type 0
AllXterm = All (λ c. is_xterm_color c ≡ true)

pixels_loop-channels :
    (colors : List RgbColor)
    → AllXterm colors
    → pixels_loop (channels colors) ≡ some (map pixel colors)
unfolding pixels_loop
pixels_loop-channels [] all = refl
pixels_loop-channels (c ∷ cs) (one, all) = rw (pixels_loop-channels cs all, one) refl

length-channels : (colors : List RgbColor) → length (channels colors) ≡ length colors * 3
length-channels [] = refl
length-channels (c ∷ cs) = omega (arith, length-channels cs)

end_header-line_feed : (rest : Bytes) → end_header (10 ∷ rest) ≡ some rest
unfolding end_header
end_header-line_feed [] = refl
end_header-line_feed (c ∷ cs) = refl

magic_IsToken : IsToken (codes "P6")
magic_IsToken = record { long = omega arith; short = omega arith; plain = (refl, (refl, tt)) }

maximum_IsToken : IsToken (codes "255")
maximum_IsToken = record {
  long = omega arith;
  short = omega arith;
  plain = (refl, (refl, (refl, tt)));
}

header_end-step :
    (width height : ℕ) (text rest bytes : Bytes)
    → token_is (codes "255") text ≡ some rest
    → end_header rest ≡ some bytes
    → header_end width height text ≡ some (width, height, bytes)
unfolding header_end
header_end-step width height text rest bytes e f = ground (arith, e, f)

header_height-step :
    (width height : ℕ) (text rest : Bytes)
    → token_dimension max_height text ≡ some (height, rest)
    → header_height width text ≡ header_end width height rest
unfolding header_height
header_height-step width height text rest e = ground (arith, e)

header_width-step :
    (width : ℕ) (text rest : Bytes)
    → token_dimension max_width text ≡ some (width, rest)
    → header_width text ≡ header_height width rest
unfolding header_width
header_width-step width text rest e = ground (arith, e)

ppm_header-step :
    (text rest : Bytes)
    → token_is (codes "P6") text ≡ some rest
    → ppm_header text ≡ header_width rest
unfolding ppm_header
ppm_header-step text rest e = ground (arith, e)

decode_cover-step :
    (text : Bytes) (width height : ℕ) (bytes : Bytes) (pixels : List ℕ)
    → ppm_header text ≡ some (width, height, bytes)
    → length bytes ≡ width * height * 3
    → pixels_loop bytes ≡ some pixels
    → decode_cover text ≡ loaded (record { width = width; height = height; pixels = pixels })
unfolding decode_cover image_of
decode_cover-step text width height bytes pixels e sized f = ground (arith, e, sized, f)

ppm_header-print :
    (l : Layout) (width height : ℕ) (colors : List RgbColor)
    → IsLayout l
    → 1 ≤ width
    → width ≤ max_width
    → 1 ≤ height
    → height ≤ max_height
    → ppm_header (print_cover l width height colors) ≡ some (width, height, channels colors)
ppm_header-print l width height colors is low high low' high' =
    ppm_header-step _ _ (
      token_is-append (codes "P6") _ is.first_blank magic_IsToken
        (Blank-StopsToken _ is.second_blank is.second_some))
    ∙ header_width-step width _ _ (
        token_dimension-append max_width width _ is.second_blank width_Reads low high
          (Blank-StopsToken _ is.third_blank is.third_some))
    ∙ header_height-step width height _ _ (
        token_dimension-append max_height height _ is.third_blank height_Reads low' high'
          (Blank-StopsToken _ is.fourth_blank is.fourth_some))
    ∙ header_end-step width height _ _ (channels colors)
        (token_is-append (codes "255") (10 ∷ channels colors) is.fourth_blank maximum_IsToken refl)
        (end_header-line_feed (channels colors))

-- An image of 1 to 600 by 1 to 378 pixels, all of xterm colours, that is printed in the P6 form, with
-- any white space and comments between the tokens of the header, is loaded with the same size and
-- the pixels of its colours.
pub decode_cover-print_cover :
    (l : Layout) (width height : ℕ) (colors : List RgbColor)
    → IsLayout l
    → 1 ≤ width
    → width ≤ max_width
    → 1 ≤ height
    → height ≤ max_height
    → length colors ≡ width * height
    → AllXterm colors
    → decode_cover (print_cover l width height colors)
      ≡ loaded (record { width = width; height = height; pixels = map pixel colors })
decode_cover-print_cover l width height colors is low high low' high' sized all =
    decode_cover-step _ width height (channels colors) (map pixel colors)
      (ppm_header-print l width height colors is low high low' high')
      (omega (arith, length-channels colors, sized)) (pixels_loop-channels colors all)
