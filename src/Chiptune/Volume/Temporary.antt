-- ===== src/Chiptune/Volume/Temporary.antt =====
-- The temporary file of a save of the volume.
use nes_deck.Prelude.{
  ℕ, zero, suc, ◌+◌, ◌≡◌, ◌≢◌, refl, sym, ap, ◌∙◌, arith, inl, inr, Bool-cases, [], ◌++◌, Option,
  none, some, Bytes, length, length-append, ltb,
}
use nes_deck.Kernel.{
  Kernel, KernelLaws, Same, SameBut, Created, CreateResult, created, exists, create_failed,
}
use nes_deck.Chiptune.Volume.{volume_suffix, volume_turn, volume_temporary}

module _ (k : Kernel) where
  open k use {Disk, content, create_exclusive}

  pub volume_name-ne : (path : Bytes) (attempt : ℕ) → path ≢ path ++ volume_suffix k attempt
  unfolding volume_suffix
  volume_name-ne path attempt e = absurd (omega (arith, ap length e, length-append path _))

  abbrev pub Found : Bytes → Disk → Option Bytes × Disk → Type 0
  Found path d (some name, d') =
      (attempt : ℕ) × (name ≡ path ++ volume_suffix k attempt)
      × SameBut k name d d'
      × (content d name ≡ none)
      × (content d' name ≡ some [])
  Found path d (none, d') = Same k d d'

  Found-after :
      (path : Bytes) (d d' : Disk) (t : Option Bytes × Disk)
      → Same k d d'
      → Found path d' t
      → Found path d t
  Found-after path d d' (some name, d'') same (attempt, e, same', absent, fresh) =
      (attempt, e, λ p ne. same' p ne ∙ same p, sym (same name) ∙ absent, fresh)
  Found-after path d d' (none, d'') same same' = λ p. same' p ∙ same p

  module _ (laws : KernelLaws k) where
    volume_turn-Found :
        (rest : Disk → Option Bytes × Disk) (path : Bytes) (attempt : ℕ) (r : CreateResult)
        (d d' : Disk)
        → Found path d' (rest d')
        → Created k (path ++ volume_suffix k attempt) d r d'
        → Found path d (volume_turn k rest (path ++ volume_suffix k attempt) r d')
    unfolding volume_turn
    volume_turn-Found rest path attempt created d d' h (same, absent, fresh) =
        (attempt, refl, same, absent, fresh)
    volume_turn-Found rest path attempt exists d d' h same = Found-after path d d' (rest d') same h
    volume_turn-Found rest path attempt create_failed d d' h same = same

    pub volume_temporary-Found :
        (rounds attempt : ℕ) (path filename : Bytes) (d : Disk)
        → Found path d (volume_temporary k rounds attempt path filename d)
    unfolding volume_temporary
    volume_temporary-Found zero attempt path filename d = λ p. refl
    volume_temporary-Found (suc rounds) attempt path filename d =
        let name = path ++ volume_suffix k attempt in
        let found =
          volume_turn-Found (volume_temporary k rounds (attempt + 1) path filename) path attempt
            (create_exclusive name d).0 d (create_exclusive name d).1
            (volume_temporary-Found rounds (attempt + 1) path filename (create_exclusive name d).1)
            (laws.create_law name d) in
        elim (Bool-cases (ltb 255 (length (filename ++ volume_suffix k attempt)))) [
          | inl long ↦ rw long (λ p. refl)
          | inr short ↦ rw short found
        ]
