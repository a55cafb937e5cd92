-- ===== src/Chiptune/Names.antt =====
-- What src/chiptune_deck.cpp makes of the names of its files.
pub mod Clip
use nes_deck.Prelude.{
  ℕ, ◌+◌, ◌-◌, Bool, true, false, ◌||◌, List, [], ◌∷◌, ◌++◌, Option, none, some, map, leb, ◌==◌,
  within, if◌then◌else◌, length, take, Bytes, codes, equal,
}

-- The characters that are kept.
abbrev pub is_kept : ℕ → Bool
is_kept c =
    within b'A' b'Z' c
    || within b'0' b'9' c
    || c == b' '
    || c == b'.'
    || c == b':'
    || c == b'-'
    || c == b'+'
    || c == b'/'

abbrev pub upper : ℕ → ℕ
upper c = if within b'a' b'z' c then c - b'a' + b'A' else c

-- What is pushed for a character.
abbrev pub cleaned : ℕ → Bytes
cleaned c = if is_kept c then c ∷ [] else if c == b'_' || c == b'\t' then b' ' ∷ [] else []

unfoldable pub uppercase_ascii : Bytes → Bytes
uppercase_ascii [] = []
uppercase_ascii (c ∷ cs) = cleaned (upper c) ++ uppercase_ascii cs

unfoldable pub clipped : Bytes → ℕ → Bytes
clipped input maximum =
    let clean = uppercase_ascii input in
    if leb (length clean) maximum
    then clean
    else if leb maximum 3
    then take maximum clean
    else take (maximum - 3) clean ++ codes "..."

-- `find_last_of`, as what stands before the last such byte, and as what stands from there.
unfoldable pub before_last : ℕ → Bytes → Option Bytes
before_last mark [] = none
before_last mark (c ∷ cs) = elim (before_last mark cs) [
  | none ↦ if c == mark then some [] else none
  | some before ↦ some (c ∷ before)
]

unfoldable pub from_last : ℕ → Bytes → Option Bytes
from_last mark [] = none
from_last mark (c ∷ cs) = elim (from_last mark cs) [
  | none ↦ if c == mark then some (c ∷ cs) else none
  | some after ↦ some after
]

-- `substr(slash + 1)`.
abbrev file_part : Option Bytes → Bytes → Bytes
file_part none path = path
file_part (some []) path = []
file_part (some (c ∷ cs)) path = cs

abbrev or_all : Option Bytes → Bytes → Bytes
or_all none name = name
or_all (some before) name = before

abbrev spaced : ℕ → ℕ
spaced c = if c == b'-' || c == b'_' then b' ' else c

unfoldable pub base_name : Bytes → Bytes
base_name path =
    let name = file_part (from_last b'/' path) path in
    map spaced (or_all (before_last b'.' name) name)

abbrev lower : ℕ → ℕ
lower c = if within b'A' b'Z' c then c - b'A' + b'a' else c

unfoldable pub lower_extension : Bytes → Bytes
lower_extension path = elim (from_last b'.' path) [
  | none ↦ []
  | some extension ↦ map lower extension
]

abbrev one_of : List Bytes → Bytes → Bool
one_of [] name = false
one_of (e ∷ es) name = if equal name e then true else one_of es name

abbrev extensions : List Bytes
extensions =
    codes ".ay"
    ∷ codes ".gbs"
    ∷ codes ".gym"
    ∷ codes ".hes"
    ∷ codes ".kss"
    ∷ codes ".nsf"
    ∷ codes ".nsfe"
    ∷ codes ".sap"
    ∷ codes ".spc"
    ∷ codes ".vgm"
    ∷ codes ".vgz"
    ∷ codes ".ogg"
    ∷ []

unfoldable pub supported_extension : Bytes → Bool
supported_extension path = one_of extensions (lower_extension path)
