-- ===== src/MenuState/Volume/RoundTrip.antt =====
-- A volume that was saved is the one that is loaded.
use nes_deck.Prelude.{
  ℕ, ◌≤◌, ◌≡◌, refl, sym, ◌∙◌, arith, ◌⊎◌, inl, inr, false, Option, none, some, ltb, Bytes,
}
use nes_deck.Kernel.{Kernel, KernelLaws}
use nes_deck.MenuState.Result.{StateError, Result, ok, err}
use nes_deck.MenuState.Store.{load_state_value}
use nes_deck.MenuState.Store.Load.{Loaded, load_state_value-Loaded}
use nes_deck.MenuState.Volume.{save_volume_state, parsed_volume, use_volume, load_volume_state}
use nes_deck.MenuState.Volume.Laws.{stored, parse_stored, save_volume-Saved}

module _ (k : Kernel) where
  open k use {Disk, content}

  use_volume-stored :
      (path : Bytes) (v default_volume : ℕ) (d : Disk) (r : Result (Option Bytes) × Disk)
      → v ≤ 100
      → content d path ≡ some (stored v)
      → Loaded k path d r
      → ((e : StateError) × (r.0 ≡ err e))
        ⊎ (use_volume k path default_volume r.0 r.1 ≡ (ok v, r.1))
  unfolding use_volume parsed_volume
  use_volume-stored path v default_volume d (err e, d') small is loaded = inl (e, refl)
  use_volume-stored path v default_volume d (ok none, d') small is (same, absent) =
      absurd (cc (sym is ∙ absent))
  use_volume-stored path v default_volume d (ok (some bytes), d') small is (same, is', short) =
      let e : bytes ≡ stored v = cc (sym is' ∙ is) in
      let (parsed, on, off) = parse_stored v small in inr (rw e (rw (on, off, parsed)))

  module _ (laws : KernelLaws k) where
    -- On any kernel that keeps the laws: after a save that reported success, a load with any
    -- permitted default returns the volume that was saved and writes nothing, unless the reading of
    -- the file fails.
    pub load-save :
        (path : Bytes) (v default_volume : ℕ) (d d' : Disk)
        → default_volume ≤ 100
        → save_volume_state k path v d ≡ (ok tt, d')
        → ((e : StateError) × ((load_state_value k path d').0 ≡ err e))
          ⊎ (load_volume_state k path default_volume d' ≡ (ok v, (load_state_value k path d').1))
    unfolding load_volume_state
    load-save path v default_volume d d' fits saved =
        let usual : ltb 100 default_volume ≡ false = ground arith in
        let small : v ≤ 100 = unfold save_volume_state in ground arith in
        let is = rw saved at (save_volume-Saved k laws path v d small) in
        rw usual (
          use_volume-stored path v default_volume d' (load_state_value k path d') small is.0
            (load_state_value-Loaded k laws path d'))
