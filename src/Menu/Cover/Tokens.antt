-- ===== src/Menu/Cover/Tokens.antt =====
-- The tokens of a P6 header: blanks with comments, and the numbers that are read back.
use nes_deck.Prelude.{
  ℕ, zero, suc, ◌≤◌, ◌<◌, ◌≡◌, ◌≢◌, refl, ap, ◌∙◌, arith, Bool, true, false, not, ◌&&◌, ◌||◌, [],
  ◌∷◌, ◌++◌, append_assoc, Option, none, some, ltb, leb, ◌==◌, length, Bytes, All, equal, equal_iff,
}
use nes_deck.Prelude.Bits.{all_below, all_below_sound}
use nes_deck.MenuState.Number.{to_string}
use nes_deck.Text.{is_space}
use nes_deck.Menu.Cover.{
  skip_blank, cut_token, next_ppm_token, parse_positive_dimension, dimension_loop, token_is,
  token_dimension, max_width, max_height,
}

-- White space and comments, as far as the line feed that ends the last comment.
pub data Blank : Bytes → Type 0 where
  nothing : Blank []
  space : {c : ℕ} {s : Bytes} → is_space c ≡ true → Blank s → Blank (c ∷ s)
  comment : (text s : Bytes) → All (λ c. c ≢ 10) text → Blank s → Blank (b'#' ∷ (text ++ (10 ∷ s)))

-- A character of a token.
abbrev pub IsTokenChar : ℕ → Type 0
IsTokenChar c = (is_space c || c == b'#') ≡ false

-- What a token ends before.
abbrev pub StopsToken : Bytes → Type 0
StopsToken [] = Unit
StopsToken (c ∷ cs) = (is_space c || c == b'#') ≡ true

skip_blank-space :
    (c : ℕ) (rest : Bytes) → is_space c ≡ true → skip_blank false (c ∷ rest) ≡ skip_blank false rest
unfolding skip_blank
skip_blank-space c rest h = ground (arith, h)

skip_blank-comment :
    (text rest : Bytes)
    → All (λ c. c ≢ 10) text
    → skip_blank true (text ++ (10 ∷ rest)) ≡ skip_blank false rest
unfolding skip_blank
skip_blank-comment [] rest h = refl
skip_blank-comment (c ∷ text) rest (other, h) =
    ground (arith, other, skip_blank-comment text rest h)

skip_blank-Blank :
    {s : Bytes} (rest : Bytes) → Blank s → skip_blank false (s ++ rest) ≡ skip_blank false rest
unfolding skip_blank
skip_blank-Blank rest nothing = refl
skip_blank-Blank rest (space {c = c} {s = s} h b) =
    skip_blank-space c (s ++ rest) h ∙ skip_blank-Blank rest b
skip_blank-Blank rest (comment text s h b) =
    ap (skip_blank true) (append_assoc text (10 ∷ s) rest)
    ∙ skip_blank-comment text (s ++ rest) h
    ∙ skip_blank-Blank rest b

pub Blank-StopsToken : {s : Bytes} (rest : Bytes) → Blank s → s ≢ [] → StopsToken (s ++ rest)
Blank-StopsToken rest nothing some_blank = absurd (some_blank refl)
Blank-StopsToken rest (space h b) some_blank = ground (arith, h)
Blank-StopsToken rest (comment text s h b) some_blank = refl

cut_token-stop : (rest : Bytes) → StopsToken rest → cut_token rest ≡ ([], rest)
unfolding cut_token
cut_token-stop [] h = refl
cut_token-stop (c ∷ cs) h = ground (arith, h)

cut_token-append :
    (token rest : Bytes)
    → All IsTokenChar token
    → StopsToken rest
    → cut_token (token ++ rest) ≡ (token, rest)
unfolding cut_token
cut_token-append [] rest all stop = cut_token-stop rest stop
cut_token-append (c ∷ cs) rest (one, all) stop = rw (one, cut_token-append cs rest all stop) refl

skip_blank-token :
    (token rest : Bytes)
    → All IsTokenChar token
    → 0 < length token
    → skip_blank false (token ++ rest) ≡ token ++ rest
unfolding skip_blank
skip_blank-token [] rest all long = absurd (omega arith)
skip_blank-token (c ∷ cs) rest all long = ground (arith, all.0)

-- A token is of a length that is accepted, and of its characters only.
pub record IsToken (token : Bytes) : Type 0 where
  pub long : 0 < length token
  pub short : length token ≤ 32
  pub plain : All IsTokenChar token

pub next_ppm_token-append :
    {s : Bytes} (token rest : Bytes)
    → Blank s
    → IsToken token
    → StopsToken rest
    → next_ppm_token (s ++ (token ++ rest)) ≡ some (token, rest)
unfolding next_ppm_token
next_ppm_token-append token rest b is stop =
    let cut : cut_token (skip_blank false (_ ++ (token ++ rest))) ≡ (token, rest) =
      ap cut_token
        (skip_blank-Blank (token ++ rest) b ∙ skip_blank-token token rest is.plain is.long)
      ∙ cut_token-append token rest is.plain stop in
    rw cut (ground (arith, is.long, is.short))

-- What a table says of a number: its digits are a token that is read back.
abbrev plain_char : ℕ → Bool
plain_char c = not (is_space c || c == b'#')

unfoldable plain_text : Bytes → Bool
plain_text [] = true
plain_text (c ∷ cs) = plain_char c && plain_text cs

plain_text_sound : (text : Bytes) → plain_text text ≡ true → All IsTokenChar text
unfolding plain_text
plain_text_sound [] h = tt
plain_text_sound (c ∷ cs) h = (ground (arith, h), plain_text_sound cs (ground (arith, h)))

abbrev reads : Option ℕ → ℕ → Bool
reads none n = false
reads (some v) n = v == n

abbrev good : ℕ → ℕ → Bool
good maximum n =
    ltb 0 (length (to_string (suc n)))
    && leb (length (to_string (suc n))) 32
    && plain_text (to_string (suc n))
    && reads (parse_positive_dimension maximum (to_string (suc n))) (suc n)

width_table : all_below max_width (good max_width) ≡ true
unfolding all_below plain_text to_string parse_positive_dimension dimension_loop equal
width_table = refl

height_table : all_below max_height (good max_height) ≡ true
unfolding all_below plain_text to_string parse_positive_dimension dimension_loop equal
height_table = refl

-- What the table of the numbers up to a maximum gives.
abbrev pub Reads : ℕ → Type 0
Reads maximum =
    (n : ℕ)
    → 1 ≤ n
    → n ≤ maximum
    → IsToken (to_string n) × (parse_positive_dimension maximum (to_string n) ≡ some n)

reads_sound : (o : Option ℕ) (n : ℕ) → reads o n ≡ true → o ≡ some n
reads_sound none n h = cc
reads_sound (some v) n h = ground (arith, h)

good_sound :
    (maximum n : ℕ)
    → good maximum n ≡ true
    → IsToken (to_string (suc n))
      × (parse_positive_dimension maximum (to_string (suc n)) ≡ some (suc n))
good_sound maximum n h = (
  record {
    long = ground (arith, h);
    short = ground (arith, h);
    plain = plain_text_sound (to_string (suc n)) (ground (arith, h));
  },
  reads_sound (parse_positive_dimension maximum (to_string (suc n))) (suc n) (ground (arith, h)),
)

Reads-all : (maximum : ℕ) → all_below maximum (good maximum) ≡ true → Reads maximum
Reads-all maximum table zero low high = absurd (omega arith)
Reads-all maximum table (suc n) low high =
    good_sound maximum n (all_below_sound maximum (good maximum) n table (omega arith))

pub width_Reads : Reads max_width
width_Reads = Reads-all max_width width_table

pub height_Reads : Reads max_height
height_Reads = Reads-all max_height height_table

token_is-step :
    (word bytes token rest : Bytes)
    → next_ppm_token bytes ≡ some (token, rest)
    → equal token word ≡ true
    → token_is word bytes ≡ some rest
unfolding token_is
token_is-step word bytes token rest e same = ground (arith, e, same)

token_dimension-step :
    (maximum : ℕ) (bytes token rest : Bytes) (n : ℕ)
    → next_ppm_token bytes ≡ some (token, rest)
    → parse_positive_dimension maximum token ≡ some n
    → token_dimension maximum bytes ≡ some (n, rest)
unfolding token_dimension
token_dimension-step maximum bytes token rest n e read = ground (arith, e, read)

pub token_is-append :
    {s : Bytes} (word rest : Bytes)
    → Blank s
    → IsToken word
    → StopsToken rest
    → token_is word (s ++ (word ++ rest)) ≡ some rest
token_is-append word rest b is stop =
    token_is-step word _ word rest (next_ppm_token-append word rest b is stop)
      ((equal_iff word word).1 refl)

pub token_dimension-append :
    {s : Bytes} (maximum n : ℕ) (rest : Bytes)
    → Blank s
    → Reads maximum
    → 1 ≤ n
    → n ≤ maximum
    → StopsToken rest
    → token_dimension maximum (s ++ (to_string n ++ rest)) ≡ some (n, rest)
token_dimension-append maximum n rest b table low high stop =
    let (is, read) = table n low high in
    token_dimension-step maximum _ (to_string n) rest n
      (next_ppm_token-append (to_string n) rest b is stop) read
