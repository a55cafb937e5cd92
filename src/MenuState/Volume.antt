-- ===== src/MenuState/Volume.antt =====
-- `save_volume_state` and `load_volume_state` of src/menu_state.cpp.
pub mod Laws
pub mod RoundTrip
use nes_deck.Prelude.{
  ℕ, ◌+◌, ◌≤◌, Bool, true, false, List, [], ◌∷◌, ◌++◌, Option, none, some, ltb, ◌==◌, if◌then◌else◌,
  Bytes, equal, codes,
}
use nes_deck.Kernel.{Kernel}
use nes_deck.MenuState.Number.{to_string, parse_volume_percent}
use nes_deck.MenuState.Result.{StateError, Result, ok, err, out_of_range, malformed}
use nes_deck.MenuState.Store.{Outcome, save_state_value, load_state_value}

-- The text in front of the only newline, which must be the last byte: the three tests on `bytes`
-- in front of the parse, and the `substr`.
unfoldable pub one_line : Bytes → Option Bytes
one_line [] = none
one_line (c ∷ []) = if c == b'\n' then some [] else none
one_line (c ∷ d ∷ cs) = elim (one_line (d ∷ cs)) [
  | none ↦ none
  | some line ↦ if c == b'\n' then none else some (c ∷ line)
]

-- The number on the line.
unfoldable pub parse_line : Option Bytes → Option ℕ
parse_line none = none
parse_line (some line) = parse_volume_percent line

module _ (k : Kernel) where
  open k use {Disk}

  unfoldable pub save_volume_state : Bytes → ℕ → Disk → Outcome × Disk
  save_volume_state path volume d =
      if ltb 100 volume then (err out_of_range, d) else save_state_value k path (to_string volume) d

  -- `*volume = v; return save_volume_state(…)`.
  unfoldable pub returning : ℕ → Outcome × Disk → Result ℕ × Disk
  returning v (ok t, d) = (ok v, d)
  returning v (err e, d) = (err e, d)

  unfoldable pub parsed_volume : Option ℕ → Disk → Result ℕ × Disk
  parsed_volume none d = (err malformed, d)
  parsed_volume (some v) d = (ok v, d)

  -- What is made of the bytes that were loaded.
  unfoldable pub use_volume : Bytes → ℕ → Result (Option Bytes) → Disk → Result ℕ × Disk
  use_volume path default_volume (err e) d = (err e, d)
  use_volume path default_volume (ok none) d =
      returning default_volume (save_volume_state path default_volume d)
  use_volume path default_volume (ok (some bytes)) d =
      if equal bytes (codes "on\n")
      then returning default_volume (save_volume_state path default_volume d)
      else if equal bytes (codes "off\n")
      then returning 0 (save_volume_state path 0 d)
      else parsed_volume (parse_line (one_line bytes)) d

  unfoldable pub load_volume_state : Bytes → ℕ → Disk → Result ℕ × Disk
  load_volume_state path default_volume d =
      if ltb 100 default_volume
      then (err out_of_range, d)
      else (let (r, d') = load_state_value k path d in use_volume path default_volume r d')
