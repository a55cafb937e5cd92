-- ===== src/MenuState/Keymap.antt =====
-- `valid_keymap`, `save_keymap_state` and `load_keymap_state` of src/menu_state.cpp.
use nes_deck.Prelude.{
  ◌≡◌, refl, ap, ◌∙◌, inl, inr, Bool, true, not, ◌||◌, Bool-cases, [], ◌∷◌, ◌++◌, Option, none,
  some, if◌then◌else◌, Bytes, equal, equal_iff, codes,
}
use nes_deck.Kernel.{Kernel, KernelLaws}
use nes_deck.MenuState.Result.{Result, ok, err, out_of_range, malformed}
use nes_deck.MenuState.Store.{Outcome, save_state_value, load_state_value}
use nes_deck.MenuState.Store.Atomic.{Saved, save_state_value-Saved}
use nes_deck.MenuState.Store.Load.{Loaded, load_state_value-Loaded}

unfoldable pub valid_keymap : Bytes → Bool
valid_keymap keymap = equal keymap (codes "us") || equal keymap (codes "cz")

module _ (k : Kernel) where
  open k use {Disk, content}

  unfoldable pub save_keymap_state : Bytes → Bytes → Disk → Outcome × Disk
  save_keymap_state path keymap d =
      if not (valid_keymap keymap) then (err out_of_range, d) else save_state_value k path keymap d

  unfoldable pub returning : Bytes → Outcome × Disk → Result Bytes × Disk
  returning keymap (ok t, d) = (ok keymap, d)
  returning keymap (err e, d) = (err e, d)

  unfoldable pub use_keymap : Bytes → Result (Option Bytes) → Disk → Result Bytes × Disk
  use_keymap path (err e) d = (err e, d)
  use_keymap path (ok none) d = returning (codes "us") (save_keymap_state path (codes "us") d)
  use_keymap path (ok (some bytes)) d =
      if equal bytes (codes "us\n")
      then (ok (codes "us"), d)
      else if equal bytes (codes "cz\n")
      then (ok (codes "cz"), d)
      else (err malformed, d)

  unfoldable pub load_keymap_state : Bytes → Disk → Result Bytes × Disk
  load_keymap_state path d = let (r, d') = load_state_value k path d in use_keymap path r d'

  -- What a load of the keymap has done when it returns.
  abbrev pub LoadedKeymap : Bytes → Disk → Result Bytes × Disk → Type 0
  LoadedKeymap path d (ok keymap, d') =
      (valid_keymap keymap ≡ true) × (content d' path ≡ some (keymap ++ b'\n' ∷ []))
  LoadedKeymap path d (err e, d') = content d' path ≡ content d path

  returning-LoadedKeymap :
      (path keymap : Bytes) (d d' : Disk) (o : Outcome × Disk)
      → valid_keymap keymap ≡ true
      → content d' path ≡ content d path
      → Saved k path keymap d' o
      → LoadedKeymap path d (returning keymap o)
  unfolding returning
  returning-LoadedKeymap path keymap d d' (ok t, d'') good same saved = (good, saved.0)
  returning-LoadedKeymap path keymap d d' (err e, d'') good same saved = saved.0 ∙ same

  module _ (laws : KernelLaws k) where
    use_keymap-LoadedKeymap :
        (path : Bytes) (d : Disk) (r : Result (Option Bytes) × Disk)
        → Loaded k path d r
        → LoadedKeymap path d (use_keymap path r.0 r.1)
    unfolding use_keymap save_keymap_state valid_keymap equal
    use_keymap-LoadedKeymap path d (err e, d') (same, ne) = same path
    use_keymap-LoadedKeymap path d (ok none, d') (same, absent) =
        returning-LoadedKeymap path (codes "us") d d' _ refl (same path)
          (save_state_value-Saved k laws path (codes "us") d').0
    use_keymap-LoadedKeymap path d (ok (some bytes), d') (same, is, short) =
        elim (Bool-cases (equal bytes (codes "us\n"))) [
          | inl us ↦ rw us (refl, same path ∙ is ∙ ap some ((equal_iff bytes (codes "us\n")).0 us))
          | inr other ↦ elim (Bool-cases (equal bytes (codes "cz\n"))) [
            | inl cz ↦
                rw (other, cz)
                  (refl, same path ∙ is ∙ ap some ((equal_iff bytes (codes "cz\n")).0 cz))
            | inr bad ↦ rw (other, bad) (same path)
          ]
        ]

    -- On any kernel that keeps the laws: the keymap that a load returns is `us` or `cz`, and the
    -- state file then holds it and a newline, also where it was missing; a load that fails has left
    -- the state file as it was.
    pub load_keymap_state-LoadedKeymap :
        (path : Bytes) (d : Disk) → LoadedKeymap path d (load_keymap_state path d)
    unfolding load_keymap_state
    load_keymap_state-LoadedKeymap path d =
        use_keymap-LoadedKeymap path d (load_state_value k path d)
          (load_state_value-Loaded k laws path d)
