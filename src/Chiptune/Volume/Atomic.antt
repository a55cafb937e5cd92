-- ===== src/Chiptune/Volume/Atomic.antt =====
-- A save of the volume replaces the state file as a whole or leaves it alone.
use nes_deck.Prelude.{
  ℕ, suc, ◌≡◌, ◌≢◌, refl, sym, ◌∙◌, ◌⊎◌, inl, inr, Bool, true, false, not, ◌||◌, Bool-cases, [],
  ◌∷◌, ◌++◌, Option, none, some, Bytes, length, ltb, drop,
}
use nes_deck.Kernel.{
  Kernel, KernelLaws, Same, SameBut, OpenResult, opened, missing, open_failed, Opened,
}
use nes_deck.MenuIo.{write_all, write_all-WroteAll}
use nes_deck.MenuState.Number.{to_string}
use nes_deck.Text.{path_max}
use nes_deck.MenuState.Result.{ok, err, cannot_sync, cannot_close, cannot_replace}
use nes_deck.MenuState.Store.{before_last_slash, Outcome, write_outcome, step_unless, step_always}
use nes_deck.MenuState.Store.Atomic.{
  step_unless-Filled, step_always-Filled, write-Filled, Placed, rename-Placed, Unlinked-SameBut,
}
use nes_deck.Chiptune.Volume.{
  no_name, directory_of, starts_with_slash, volume_suffix, volume_temporary, end_volume,
  fill_volume, save_volume_into, save_volume_in, save_volume_at, save_player_volume,
}
use nes_deck.Chiptune.Volume.Temporary.{volume_name-ne, Found, volume_temporary-Found}

module _ (k : Kernel) where
  open k use {Disk, content, open_file, fsync, close, rename, unlink}

  -- What a save has done when it returns, by its result.
  abbrev pub VolumeSaved : Bytes → Bytes → Disk → Bool × Disk → Type 0
  VolumeSaved path value d (true, d') =
      (content d' path ≡ some value) × ((p : Bytes) → p ≢ path → content d' p ≡ content d p)
  VolumeSaved path value d (false, d') =
      ((content d' path ≡ content d path) ⊎ (content d' path ≡ some value))
      × ((p : Bytes)
          → p ≢ path
          → ((attempt : ℕ) → p ≢ path ++ volume_suffix k attempt)
          → content d' p ≡ content d p)

  -- After the last step of five.
  abbrev Ended : Bytes → Bytes → Bytes → Disk → Outcome × Disk → Type 0
  Ended path name value d (ok t, d') =
      (content d' path ≡ some value) × ((p : Bytes) → p ≢ path → content d' p ≡ content d p)
  Ended path name value d (err e, d') =
      SameBut k name d d'
      ⊎ ((content d' path ≡ some value) × ((p : Bytes) → p ≢ path → content d' p ≡ content d p))

  module _ (laws : KernelLaws k) where
    sync-Ended :
        (path name value directory : Bytes) (o : Outcome) (d d' : Disk)
        → Placed k laws path name value d (o, d')
        → Ended path name value d (step_unless k o cannot_sync (fsync directory) d')
    unfolding step_unless
    sync-Ended path name value directory (err e) d d' h = inl h
    sync-Ended path name value directory (ok t) d d' (placed, others) =
        let same = laws.fsync_law directory d' in
        elim (Bool-cases (fsync directory d').0) [
          | inl done ↦ rw done (same path ∙ placed, λ p ne. same p ∙ others p ne)
          | inr failed ↦ rw failed (inr (same path ∙ placed, λ p ne. same p ∙ others p ne))
        ]

    end_volume-VolumeSaved :
        (path name value : Bytes) (o : Outcome) (d d' : Disk) (attempt : ℕ)
        → name ≡ path ++ volume_suffix k attempt
        → Ended path name value d (o, d')
        → VolumeSaved path value d (end_volume k name o d')
    unfolding end_volume
    end_volume-VolumeSaved path name value (ok t) d d' attempt e h = h
    end_volume-VolumeSaved path name value (err why) d d' attempt e h =
        let ne : path ≢ name = λ q. volume_name-ne k path attempt (q ∙ e) in
        let gone =
          Unlinked-SameBut k laws name (unlink name d').0 d' d' (unlink name d').1 (λ p np. refl)
            (laws.unlink_law name d') in
        elim h [
          | inl same ↦ (
            inl (gone path ne ∙ same path ne),
            λ p np other. gone p (λ q. other attempt (q ∙ e)) ∙ same p (λ q. other attempt (q ∙ e)),
          )
          | inr (placed, others) ↦ (
            inr (gone path ne ∙ placed),
            λ p np other. gone p (λ q. other attempt (q ∙ e)) ∙ others p np,
          )
        ]

    -- The calls before and after that change no file.
    VolumeSaved-between :
        (path value : Bytes) (b : Bool) (d0 d d' d'' : Disk)
        → Same k d0 d
        → Same k d' d''
        → VolumeSaved path value d (b, d')
        → VolumeSaved path value d0 (b, d'')
    VolumeSaved-between path value true d0 d d' d'' first last (placed, others) =
        (last path ∙ placed, λ p np. last p ∙ others p np ∙ first p)
    VolumeSaved-between path value false d0 d d' d'' first last (kept, others) = (
      elim kept [
        | inl same ↦ inl (last path ∙ same ∙ first path)
        | inr placed ↦ inr (last path ∙ placed)
      ],
      λ p np other. last p ∙ others p np other ∙ first p,
    )

    refused :
        (path value : Bytes) (d d' : Disk) → Same k d d' → VolumeSaved path value d (false, d')
    refused path value d d' same = (inl (same path), λ p np other. same p)

    fill_volume-VolumeSaved :
        (path directory value name : Bytes) (d d' : Disk) (attempt : ℕ)
        → name ≡ path ++ volume_suffix k attempt
        → SameBut k name d d'
        → content d name ≡ none
        → content d' name ≡ some []
        → VolumeSaved path value d (fill_volume k path directory value name d')
    unfolding fill_volume
    fill_volume-VolumeSaved path directory value name d d' attempt e same absent fresh =
        let w = write_all k name value d' in
        let o1 = write_outcome k w.0 in
        let s2 = step_unless k o1 cannot_sync (fsync name) w.1 in
        let s3 = step_always k s2.0 cannot_close (close name) s2.1 in
        let s4 = step_unless k s3.0 cannot_replace (rename name path) s3.1 in
        let s5 = step_unless k s4.0 cannot_sync (fsync directory) s4.1 in
        let h1 =
          write-Filled k laws name value d d' w same fresh
            (write_all-WroteAll k laws name value d') in
        let h2 =
          step_unless-Filled k laws name value o1 cannot_sync (fsync name) d w.1
            (laws.fsync_law name w.1) h1 in
        let h3 =
          step_always-Filled k laws name value s2.0 cannot_close (close name) d s2.1
            (laws.close_law name s2.1) h2 in
        let ne : name ≢ path = λ q. volume_name-ne k path attempt (sym q ∙ e) in
        let h4 = rename-Placed k laws path name value s3.0 d s3.1 ne absent h3 in
        let h5 = sync-Ended path name value directory s4.0 d s4.1 h4 in
        end_volume-VolumeSaved path name value s5.0 d s5.1 attempt e h5

    save_volume_into-VolumeSaved :
        (path directory value : Bytes) (d : Disk) (t : Option Bytes × Disk)
        → Found k path d t
        → VolumeSaved path value d (save_volume_into k path directory value t.0 t.1)
    unfolding save_volume_into
    save_volume_into-VolumeSaved path directory value d (none, d') same =
        refused path value d d' same
    save_volume_into-VolumeSaved path directory value d (some name, d')
          (attempt, e, same, absent, fresh) =
        fill_volume-VolumeSaved path directory value name d d' attempt e same absent fresh

    save_volume_in-VolumeSaved :
        (path directory filename value : Bytes) (r : OpenResult) (d d' : Disk)
        → Opened k directory d r d'
        → VolumeSaved path value d (save_volume_in k path directory filename value r d')
    unfolding save_volume_in
    save_volume_in-VolumeSaved path directory filename value missing d d' (same, absent) =
        refused path value d d' same
    save_volume_in-VolumeSaved path directory filename value open_failed d d' same =
        refused path value d d' same
    save_volume_in-VolumeSaved path directory filename value opened d d' same =
        let t = volume_temporary k 8 0 path filename d' in
        let s = save_volume_into k path directory value t.0 t.1 in
        VolumeSaved-between path value s.0 d d' s.1 (close directory s.1).1 same
          (laws.close_law directory s.1)
          (save_volume_into-VolumeSaved path directory value d' t
            (volume_temporary-Found k laws 8 0 path filename d'))

    save_volume_at-VolumeSaved :
        (path value : Bytes) (before : Option Bytes) (d : Disk)
        → VolumeSaved path value d (save_volume_at k path value before d)
    unfolding save_volume_at
    save_volume_at-VolumeSaved path value none d = refused path value d d (λ p. refl)
    save_volume_at-VolumeSaved path value (some before) d =
        let filename = drop (suc (length before)) path in
        let directory = directory_of before in
        let saved =
          save_volume_in-VolumeSaved path directory filename value (open_file directory d).0 d
            (open_file directory d).1 (laws.open_law directory d) in
        elim (Bool-cases (no_name filename)) [
          | inl nameless ↦ rw nameless (refused path value d d (λ p. refl))
          | inr named ↦ rw named saved
        ]

    -- On any kernel that keeps the laws, for a path that is not empty: a save of the volume that returns
    -- success has left the number and a newline in the state file and every other path as it was; one
    -- that fails has left the state file either as it was or with the new number whole, and every path
    -- but the temporary names as it was.
    pub save_player_volume-VolumeSaved :
        (path : Bytes) (volume : ℕ) (d : Disk)
        → path ≢ []
        → VolumeSaved path (to_string volume ++ b'\n' ∷ []) d (save_player_volume k path volume d)
    unfolding save_player_volume
    save_player_volume-VolumeSaved [] volume d named = absurd (named refl)
    save_player_volume-VolumeSaved (c ∷ cs) volume d named =
        let value = to_string volume ++ b'\n' ∷ [] in
        let saved = save_volume_at-VolumeSaved (c ∷ cs) value (before_last_slash (c ∷ cs)) d in
        elim (Bool-cases
          (not (starts_with_slash (c ∷ cs)) || ltb path_max (length (c ∷ cs)) || ltb 100 volume)) [
            | inl bad ↦ rw bad (refused (c ∷ cs) value d d (λ p. refl))
            | inr good ↦ rw good saved
          ]
