-- ===== src/MenuState/Volume/Laws.antt =====
-- The volume that a load returns is the one that its file then holds.
use nes_deck.Prelude.{
  ℕ, ◌≤◌, ◌≡◌, refl, ap, ◌∙◌, arith, inl, inr, Bool, true, false, not, ◌&&◌, Bool-cases, [], ◌∷◌,
  ◌++◌, Option, none, some, Option-cases, ltb, ◌==◌, Bytes, equal, codes,
}
use nes_deck.Prelude.Bits.{all_below, all_below_sound}
use nes_deck.Kernel.{Kernel, KernelLaws}
use nes_deck.MenuState.Number.{
  to_string, parse_digits, parse_volume_percent, parse_volume_percent_iff,
}
use nes_deck.MenuState.Result.{Result, ok, err}
use nes_deck.MenuState.Store.{Outcome, load_state_value}
use nes_deck.MenuState.Store.Atomic.{Saved, save_state_value-Saved}
use nes_deck.MenuState.Store.Load.{Loaded, load_state_value-Loaded}
use nes_deck.MenuState.Volume.{
  one_line, parse_line, save_volume_state, returning, parsed_volume, use_volume, load_volume_state,
}

-- The form in which a number is stored.
abbrev pub stored : ℕ → Bytes
stored v = to_string v ++ b'\n' ∷ []

pub one_line-some :
    (bytes : Bytes) {line : Bytes} → one_line bytes ≡ some line → bytes ≡ line ++ b'\n' ∷ []
unfolding one_line
one_line-some [] h = cc
one_line-some (c ∷ []) h = ground arith
one_line-some (c ∷ d ∷ cs) h = elim (Option-cases (one_line (d ∷ cs))) [
  | inl stop ↦ absurd (ground (arith, stop))
  | inr (rest, e) ↦ ap (◌∷◌ c) (one_line-some (d ∷ cs) e) ∙ ground (arith, e)
]

abbrev reads_stored : ℕ → Bool
reads_stored n = elim (parse_line (one_line (stored n))) [
  | none ↦ false
  | some v ↦
      v == n && not (equal (stored n) (codes "on\n")) && not (equal (stored n) (codes "off\n"))
]

reads_stored_table : all_below 101 reads_stored ≡ true
unfolding all_below one_line parse_line parse_volume_percent to_string equal parse_digits
reads_stored_table = refl

pub parse_stored :
    (v : ℕ)
    → v ≤ 100
    → (parse_line (one_line (stored v)) ≡ some v)
      × (equal (stored v) (codes "on\n") ≡ false)
      × (equal (stored v) (codes "off\n") ≡ false)
parse_stored v h = ground (arith, all_below_sound 101 reads_stored v reads_stored_table)

parse_line-stored :
    (bytes : Bytes) (v : ℕ) → parse_line (one_line bytes) ≡ some v → (v ≤ 100) × (bytes ≡ stored v)
unfolding parse_line
parse_line-stored bytes v h = elim (Option-cases (one_line bytes)) [
  | inl stop ↦ absurd (ground (arith, stop))
  | inr (line, e) ↦
      let (small, is) = (parse_volume_percent_iff line v).0 (ground (arith, e)) in
      (small, one_line-some bytes e ∙ ap (λ t. t ++ b'\n' ∷ []) is)
]

module _ (k : Kernel) where
  open k use {Disk, content}

  -- What a load of the volume has done when it returns.
  abbrev pub LoadedVolume : Bytes → Disk → Result ℕ × Disk → Type 0
  LoadedVolume path d (ok v, d') = (v ≤ 100) × (content d' path ≡ some (stored v))
  LoadedVolume path d (err e, d') = content d' path ≡ content d path

  returning-LoadedVolume :
      (path : Bytes) (d d' : Disk) (v : ℕ) (o : Outcome × Disk)
      → v ≤ 100
      → content d' path ≡ content d path
      → Saved k path (to_string v) d' o
      → LoadedVolume path d (returning k v o)
  unfolding returning
  returning-LoadedVolume path d d' v (ok t, d'') small same saved = (small, saved.0)
  returning-LoadedVolume path d d' v (err e, d'') small same saved = saved.0 ∙ same

  parsed-LoadedVolume :
      (path : Bytes) (d d' : Disk) (bytes : Bytes) (v : Option ℕ)
      → parse_line (one_line bytes) ≡ v
      → content d' path ≡ content d path
      → content d path ≡ some bytes
      → LoadedVolume path d (parsed_volume k v d')
  unfolding parsed_volume
  parsed-LoadedVolume path d d' bytes none e same is = same
  parsed-LoadedVolume path d d' bytes (some v) e same is =
      let (small, line) = parse_line-stored bytes v e in (small, same ∙ is ∙ ap some line)

  module _ (laws : KernelLaws k) where
    pub save_volume-Saved :
        (path : Bytes) (v : ℕ) (d : Disk)
        → v ≤ 100
        → Saved k path (to_string v) d (save_volume_state k path v d)
    unfolding save_volume_state
    save_volume-Saved path v d small =
        let fits : ltb 100 v ≡ false = ground arith in
        rw fits (save_state_value-Saved k laws path (to_string v) d).0

    use_volume-LoadedVolume :
        (path : Bytes) (default_volume : ℕ) (d : Disk) (r : Result (Option Bytes) × Disk)
        → default_volume ≤ 100
        → Loaded k path d r
        → LoadedVolume path d (use_volume k path default_volume r.0 r.1)
    unfolding use_volume
    use_volume-LoadedVolume path v d (err e, d') small (same, ne) = same path
    use_volume-LoadedVolume path v d (ok none, d') small (same, absent) =
        returning-LoadedVolume path d d' v _ small (same path) (save_volume-Saved path v d' small)
    use_volume-LoadedVolume path v d (ok (some bytes), d') small (same, is, short) =
        elim (Bool-cases (equal bytes (codes "on\n"))) [
          | inl on ↦ rw on (
              returning-LoadedVolume path d d' v _ small (same path)
                (save_volume-Saved path v d' small))
          | inr other ↦ elim (Bool-cases (equal bytes (codes "off\n"))) [
            | inl off ↦
                rw (other, off)
                  (returning-LoadedVolume path d d' 0 _ (omega arith) (same path)
                    (save_volume-Saved path 0 d' (omega arith)))
            | inr number ↦
                rw (other, number)
                  (parsed-LoadedVolume path d d' bytes (parse_line (one_line bytes)) refl
                    (same path) is)
          ]
        ]

    -- On any kernel that keeps the laws: the volume that a load returns is at most 100, and the
    -- state file then holds it in the stored form, whether it was there, was missing, or held one of
    -- the words of the old format; a load that fails has left the state file as it was.
    pub load_volume_state-LoadedVolume :
        (path : Bytes) (default_volume : ℕ) (d : Disk)
        → LoadedVolume path d (load_volume_state k path default_volume d)
    unfolding load_volume_state
    load_volume_state-LoadedVolume path v d = elim (Bool-cases (ltb 100 v)) [
      | inl large ↦ rw large refl
      | inr small ↦ rw small (
          use_volume-LoadedVolume path v d (load_state_value k path d) (ground arith)
            (load_state_value-Loaded k laws path d))
    ]
