-- ===== src/Chiptune/Player/Skip.antt =====
-- `change_file` reaches the nearest file that can be opened.
use nes_deck.Prelude.{ℕ, ◌≤◌, ◌<◌, ◌≡◌, Bool, true, false, List, length, Bytes}
use nes_deck.Chiptune.Player.{Decoded, Player, candidate}
use nes_deck.Chiptune.Player.Steps.{steps}
use nes_deck.Chiptune.Player.Order.{openable}

module _ (files : List Bytes) (decode : Bytes → Decoded) (backward : Bool) (current : ℕ) where
  -- The first attempt from some on that succeeds.
  record Lands (from : ℕ) (result : Bool × Player) : Type 0 where
    attempt : ℕ
    not_before : from ≤ attempt
    succeeds : result.0 ≡ true
    there : result.1.file_index ≡ candidate files decode backward current attempt
    plays : openable files decode (candidate files decode backward current attempt) ≡ true
    nearest :
        (i : ℕ)
        → from ≤ i
        → i < attempt
        → openable files decode (candidate files decode backward current i) ≡ false

-- The file that opens is the one after the fewest steps, at least one, that lead to one that does.
pub record Reaches (files : List Bytes) (decode : Bytes → Decoded) (backward : Bool) (current : ℕ)
    (result : Bool × Player) : Type 0 where
  pub taken : ℕ
  pub some_step : 1 ≤ taken
  pub succeeds : result.0 ≡ true
  pub there : result.1.file_index ≡ steps (length files) backward taken current
  pub plays : openable files decode (steps (length files) backward taken current) ≡ true
  pub nearest :
      (n : ℕ)
      → 1 ≤ n
      → n < taken
      → openable files decode (steps (length files) backward n current) ≡ false
