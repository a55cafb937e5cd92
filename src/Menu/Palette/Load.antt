-- ===== src/Menu/Palette/Load.antt =====
-- What a palette file has said of each role once it is accepted.
use nes_deck.Prelude.{
  ℕ, zero, suc, ◌+◌, ◌<◌, ◌≡◌, ◌≢◌, refl, sym, subst, ◌∙◌, arith, ◌⊎◌, inl, inr, Bool, true, false,
  Bool-cases, not, ◌||◌, List, [], ◌∷◌, Option, none, some, ltb, length, get_or, replicate, Bytes,
}
use nes_deck.Catalog.Color.{RgbColor, rgb}
use nes_deck.Catalog.Manifest.{getlines, strip_return}
use nes_deck.Kernel.{StatResult, stat_of, stat_failed}
use nes_deck.Text.{is_absolute_path}
use nes_deck.Menu.Palette.{
  PaletteError, token_count, Progress, Turn, stopped, going, line_turn, after_turn, palette_lines,
  all_seen, nothing_seen, finish, load_opened, load_stat, load_dashboard_palette,
}
use nes_deck.Menu.Palette.Sound.{Names, Named, Sized, Kept, Tells, line_turn-Tells}

-- What the loop has told, of the lines that it was given.
abbrev TellsAll : Progress → List Bytes → Turn → Type 0
TellsAll p lines (stopped e) = Unit
TellsAll p lines (going p') =
    Sized p'
    × ((i : ℕ)
        → get_or p'.seen i false ≡ true
        → Kept p p' i ⊎ Named i (get_or p'.values i (rgb 0 0 0)) lines)

join-Kept :
    (p p' p'' : Progress) (line : Bytes) (lines : List Bytes) (i : ℕ)
    → (get_or p'.seen i false ≡ true → Kept p p' i ⊎ Names i (get_or p'.values i (rgb 0 0 0)) line)
    → Kept p' p'' i ⊎ Named i (get_or p''.values i (rgb 0 0 0)) lines
    → Kept p p'' i ⊎ Named i (get_or p''.values i (rgb 0 0 0)) (line ∷ lines)
join-Kept p p' p'' line lines i first (inr named) = inr (inr named)
join-Kept p p' p'' line lines i first (inl (seen, same)) = elim (first seen) [
  | inl (before, kept) ↦ inl (before, same ∙ kept)
  | inr names ↦ inr (inl (subst (λ c. Names i c line) (sym same) names))
]

join_Tells :
    (p p' : Progress) (line : Bytes) (lines : List Bytes) (t : Turn)
    → Tells p line (going p')
    → TellsAll p' lines t
    → TellsAll p (line ∷ lines) t
join_Tells p p' line lines (stopped e) first rest = tt
join_Tells p p' line lines (going p'') first rest =
    (rest.0, λ i h. join-Kept p p' p'' line lines i (first.1 i) (rest.1 i h))

after_turn-TellsAll :
    (p : Progress) (line : Bytes) (lines : List Bytes) (loop : Progress → Turn) (t : Turn)
    → Tells p line t
    → ((p' : Progress) → Sized p' → TellsAll p' lines (loop p'))
    → TellsAll p (line ∷ lines) (after_turn loop t)
unfolding after_turn
after_turn-TellsAll p line lines loop (stopped e) first rest = tt
after_turn-TellsAll p line lines loop (going p') first rest =
    join_Tells p p' line lines (loop p') first (rest p' first.0)

palette_lines-TellsAll :
    (before : ℕ) (lines : List Bytes) (p : Progress)
    → Sized p
    → TellsAll p lines (palette_lines before lines p)
unfolding palette_lines
palette_lines-TellsAll before [] p sized = (sized, λ i h. inl (h, refl))
palette_lines-TellsAll before (line ∷ lines) p sized =
    after_turn-TellsAll p line lines (palette_lines (before + 1) lines)
      (line_turn (before + 1) (strip_return line) p) (line_turn-Tells p line (before + 1) sized)
      (palette_lines-TellsAll (before + 1) lines)

all_seen_sound :
    (seen : List Bool) (i : ℕ) → all_seen seen ≡ true → i < length seen → get_or seen i false ≡ true
unfolding all_seen
all_seen_sound [] i h below = absurd (omega arith)
all_seen_sound (b ∷ seen) zero h below = ground (arith, h)
all_seen_sound (b ∷ seen) (suc i) h below =
    all_seen_sound seen i (ground (arith, h)) (omega (arith, below))

-- The lines of a stream, if there is one.
abbrev pub lines_of : Option (Bytes × Bool) → List Bytes
lines_of none = []
lines_of (some (content, bad)) = getlines content

-- What a load gives: the palette it was given, or one with the colour of a line for each role.
abbrev pub Loads :
    Option (Bytes × Bool) → List RgbColor → Option PaletteError × List RgbColor → Type 0
Loads stream palette (some e, palette') = palette' ≡ palette
Loads stream palette (none, palette') =
    (i : ℕ) → i < token_count → Named i (get_or palette' i (rgb 0 0 0)) (lines_of stream)

nothing_Sized : Sized nothing_seen
nothing_Sized = record { sized_values = refl; sized_seen = refl }

never_seen : (n i : ℕ) → get_or (replicate n false) i false ≢ true
never_seen zero i h = cc
never_seen (suc n) zero h = cc
never_seen (suc n) (suc i) h = never_seen n i h

from_start :
    (p : Progress) (content : Bytes) (i : ℕ)
    → Kept nothing_seen p i ⊎ Named i (get_or p.values i (rgb 0 0 0)) (getlines content)
    → Named i (get_or p.values i (rgb 0 0 0)) (getlines content)
from_start p content i (inl (seen, kept)) = absurd (never_seen token_count i seen)
from_start p content i (inr named) = named

finish-Loads :
    (content : Bytes) (bad : Bool) (palette : List RgbColor) (t : Turn)
    → TellsAll nothing_seen (getlines content) t
    → Loads (some (content, bad)) palette (finish bad palette t)
unfolding finish
finish-Loads content bad palette (stopped e) told = refl
finish-Loads content true palette (going p) told = refl
finish-Loads content false palette (going p) told = elim (Bool-cases (all_seen p.seen)) [
  | inr e ↦ rw e refl
  | inl e ↦ rw e (λ i below.
      from_start p content i
        (told.1 i (all_seen_sound p.seen i e (omega (arith, told.0.sized_seen, below)))))
]

load_opened-Loads :
    (stream : Option (Bytes × Bool)) (palette : List RgbColor)
    → Loads stream palette (load_opened stream palette)
unfolding load_opened
load_opened-Loads none palette = refl
load_opened-Loads (some (content, bad)) palette =
    finish-Loads content bad palette _
      (palette_lines-TellsAll 0 (getlines content) nothing_seen nothing_Sized)

load_stat-Loads :
    (status : StatResult) (stream : Option (Bytes × Bool)) (palette : List RgbColor)
    → Loads stream palette (load_stat status stream palette)
unfolding load_stat
load_stat-Loads stat_failed stream palette = refl
load_stat-Loads (stat_of regular size) stream palette =
    elim (Bool-cases (not regular || ltb 4096 size)) [
      | inl e ↦ rw e refl
      | inr e ↦ rw e (load_opened-Loads stream palette)
    ]

-- A palette file that is refused leaves the palette as it was. One that is accepted has, for each of
-- the 22 roles, a line of two fields, the name of the role and a colour, and that colour is the
-- role's.
pub load_dashboard_palette-Loads :
    (path : Bytes) (status : StatResult) (stream : Option (Bytes × Bool)) (palette : List RgbColor)
    → Loads stream palette (load_dashboard_palette path status stream palette)
unfolding load_dashboard_palette
load_dashboard_palette-Loads path status stream palette =
    elim (Bool-cases (is_absolute_path path)) [
      | inl e ↦ rw e (load_stat-Loads status stream palette)
      | inr e ↦ rw e refl
    ]
