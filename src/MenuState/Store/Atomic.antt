-- ===== src/MenuState/Store/Atomic.antt =====
-- A save replaces the state file as a whole or leaves it alone.
use nes_deck.Prelude.{
  ℕ, zero, suc, ◌+◌, ◌≡◌, ◌≢◌, refl, sym, ap, ◌∙◌, arith, inl, inr, Bool, true, false, Bool-cases,
  [], ◌∷◌, ◌++◌, none, some, Bytes, equal, equal_iff, length, length-append, if◌then◌else◌,
}
use nes_deck.Kernel.{
  Kernel, KernelLaws, Same, SameBut, Created, Renamed, Unlinked, CreateResult, created, exists,
  create_failed,
}
use nes_deck.MenuIo.{
  WriteAll, all_written, write_error, stalled, write_all, WroteAll, write_all-WroteAll,
}
use nes_deck.MenuState.Result.{
  StateError, ok, err, cannot_sync, cannot_close, cannot_replace, out_of_fuel,
}
use nes_deck.MenuState.Store.Ends.{save_state_value-Ends}
use nes_deck.MenuState.Store.{
  Temporary, temporary, no_temporary, Outcome, temporary_name, create_turn, find_temporary,
  save_into, write_outcome, step_unless, step_always, settle, fill_temporary, save_state_value,
  parent_directory,
}
use nes_deck.Text.{is_absolute_path}

module _ (k : Kernel) where
  open k use {Disk, content, create_exclusive, fsync, close, rename, unlink, sync_directory}

  -- What a save has done when it returns, by its result.
  abbrev pub Saved : Bytes → Bytes → Disk → Outcome × Disk → Type 0
  Saved path value d (ok t, d') =
      (content d' path ≡ some (value ++ b'\n' ∷ []))
      × ((p : Bytes) → p ≢ path → content d' p ≡ content d p)
  Saved path value d (err e, d') =
      (content d' path ≡ content d path)
      × ((p : Bytes)
          → ((attempt : ℕ) → p ≢ temporary_name k path attempt)
          → content d' p ≡ content d p)

  temporary_name-ne : (path : Bytes) (attempt : ℕ) → path ≢ temporary_name k path attempt
  unfolding temporary_name
  temporary_name-ne path attempt e = absurd (omega (arith, ap length e, length-append path _))

  abbrev Found : Bytes → Disk → Temporary × Disk → Type 0
  Found path d (temporary name, d') =
      (attempt : ℕ) × (name ≡ temporary_name k path attempt)
      × SameBut k name d d'
      × (content d name ≡ none)
      × (content d' name ≡ some [])
  Found path d (no_temporary e, d') = Same k d d'

  Found-after :
      (path : Bytes) (d d' : Disk) (t : Temporary × Disk)
      → Same k d d'
      → Found path d' t
      → Found path d t
  Found-after path d d' (temporary name, d'') same (attempt, e, same', absent, fresh) =
      (attempt, e, λ p ne. same' p ne ∙ same p, sym (same name) ∙ absent, fresh)
  Found-after path d d' (no_temporary e, d'') same same' = λ p. same' p ∙ same p

  -- The temporary file while it is filled, by what has gone well so far.
  abbrev pub Filled : Bytes → Bytes → Disk → Outcome × Disk → Type 0
  Filled name bytes d (ok t, d') = SameBut k name d d' × (content d' name ≡ some bytes)
  Filled name bytes d (err e, d') = SameBut k name d d'

  module _ (laws : KernelLaws k) where
    create_turn-Found :
        (rest : Disk → Temporary × Disk) (path : Bytes) (attempt : ℕ) (r : CreateResult)
        (d d' : Disk)
        → Found path d' (rest d')
        → Created k (temporary_name k path attempt) d r d'
        → Found path d (create_turn k rest (temporary_name k path attempt) r d')
    unfolding create_turn
    create_turn-Found rest path attempt created d d' h (same, absent, fresh) =
        (attempt, refl, same, absent, fresh)
    create_turn-Found rest path attempt exists d d' h same = Found-after path d d' (rest d') same h
    create_turn-Found rest path attempt create_failed d d' h same = same

    find_temporary-Found :
        (rounds attempt : ℕ) (path : Bytes) (d : Disk)
        → Found path d (find_temporary k rounds attempt path d)
    unfolding find_temporary
    find_temporary-Found zero attempt path d = λ p. refl
    find_temporary-Found (suc rounds) attempt path d =
        let name = temporary_name k path attempt in
        create_turn-Found (find_temporary k rounds (attempt + 1) path) path attempt
          (create_exclusive name d).0 d (create_exclusive name d).1
          (find_temporary-Found rounds (attempt + 1) path (create_exclusive name d).1)
          (laws.create_law name d)

    pub step_unless-Filled :
        (name bytes : Bytes) (o : Outcome) (why : StateError) (step : Disk → Bool × Disk)
        (d d' : Disk)
        → Same k d' (step d').1
        → Filled name bytes d (o, d')
        → Filled name bytes d (step_unless k o why step d')
    unfolding step_unless
    step_unless-Filled name bytes (err e) why step d d' same h = h
    step_unless-Filled name bytes (ok t) why step d d' same (h, e) = elim (Bool-cases (step d').0) [
      | inl done ↦ rw done (λ p ne. same p ∙ h p ne, same name ∙ e)
      | inr failed ↦ rw failed (λ p ne. same p ∙ h p ne)
    ]

    pub step_always-Filled :
        (name bytes : Bytes) (o : Outcome) (why : StateError) (step : Disk → Bool × Disk)
        (d d' : Disk)
        → Same k d' (step d').1
        → Filled name bytes d (o, d')
        → Filled name bytes d (step_always k o why step d')
    unfolding step_always
    step_always-Filled name bytes (err e) why step d d' same h = λ p ne. same p ∙ h p ne
    step_always-Filled name bytes (ok t) why step d d' same (h, e) = elim (Bool-cases (step d').0) [
      | inl done ↦ rw done (λ p ne. same p ∙ h p ne, same name ∙ e)
      | inr failed ↦ rw failed (λ p ne. same p ∙ h p ne)
    ]

    pub write-Filled :
        (name bytes : Bytes) (d d' : Disk) (w : WriteAll × Disk)
        → SameBut k name d d'
        → content d' name ≡ some []
        → WroteAll k name bytes d' w
        → Filled name bytes d (write_outcome k w.0, w.1)
    unfolding write_outcome
    write-Filled name bytes d d' (all_written, d'') same fresh (same', after) =
        (λ p ne. same' p ne ∙ same p ne, after [] fresh)
    write-Filled name bytes d d' (write_error, d'') same fresh same' =
        λ p ne. same' p ne ∙ same p ne
    write-Filled name bytes d d' (stalled, d'') same fresh h = absurd h

    -- After the rename the new bytes are at `path`, or everything but the temporary file is as it was.
    abbrev pub Placed : Bytes → Bytes → Bytes → Disk → Outcome × Disk → Type 0
    Placed path name bytes d (ok t, d') =
        (content d' path ≡ some bytes) × ((p : Bytes) → p ≢ path → content d' p ≡ content d p)
    Placed path name bytes d (err e, d') = SameBut k name d d'

    Renamed-Placed :
        (path name bytes : Bytes) (b : Bool) (d d' d'' : Disk)
        → name ≢ path
        → content d name ≡ none
        → Filled name bytes d (ok tt, d')
        → Renamed k name path d' b d''
        → Placed path name bytes d ((if b then ok tt else err cannot_replace), d'')
    Renamed-Placed path name bytes true d d' d'' ne absent (same, e) (others, gone, moved) = (
      moved ∙ e,
      λ p np. elim (Bool-cases (equal p name)) [
        | inl is ↦ let q = (equal_iff p name).0 is in rw q (gone ne ∙ sym absent)
        | inr other ↦
            let nn : p ≢ name = λ q. cc ((equal_iff p name).1 q) in others p nn np ∙ same p nn
      ],
    )
    Renamed-Placed path name bytes false d d' d'' ne absent (same, e) same' =
        λ p np. same' p ∙ same p np

    pub rename-Placed :
        (path name bytes : Bytes) (o : Outcome) (d d' : Disk)
        → name ≢ path
        → content d name ≡ none
        → Filled name bytes d (o, d')
        → Placed path name bytes d (step_unless k o cannot_replace (rename name path) d')
    unfolding step_unless
    rename-Placed path name bytes (err e) d d' ne absent h = h
    rename-Placed path name bytes (ok t) d d' ne absent h =
        Renamed-Placed path name bytes (rename name path d').0 d d' (rename name path d').1 ne
          absent h (laws.rename_law name path d')

    pub Unlinked-SameBut :
        (name : Bytes) (b : Bool) (d d' d'' : Disk)
        → SameBut k name d d'
        → Unlinked k name d' b d''
        → SameBut k name d d''
    Unlinked-SameBut name true d d' d'' same (same', gone) = λ p np. same' p np ∙ same p np
    Unlinked-SameBut name false d d' d'' same same' = λ p np. same' p ∙ same p np

    settle-Saved :
        (path name value : Bytes) (o : Outcome) (d d' : Disk) (attempt : ℕ)
        → name ≡ temporary_name k path attempt
        → Placed path name (value ++ b'\n' ∷ []) d (o, d')
        → Saved path value d (settle k path name o d')
    unfolding settle
    settle-Saved path name value (ok t) d d' attempt e (placed, same) =
        let synced = laws.sync_law (parent_directory path) d' in
        (synced path ∙ placed, λ p np. synced p ∙ same p np)
    settle-Saved path name value (err why) d d' attempt e h =
        let same =
          Unlinked-SameBut name (unlink name d').0 d d' (unlink name d').1 h
            (laws.unlink_law name d') in
        (
          same path (λ q. temporary_name-ne path attempt (q ∙ e)),
          λ p np. same p (λ q. np attempt (q ∙ e)),
        )

    fill_temporary-Saved :
        (path value name : Bytes) (d d' : Disk) (attempt : ℕ)
        → name ≡ temporary_name k path attempt
        → SameBut k name d d'
        → content d name ≡ none
        → content d' name ≡ some []
        → Saved path value d (fill_temporary k path value name d')
    unfolding fill_temporary
    fill_temporary-Saved path value name d d' attempt e same absent fresh =
        let bytes = value ++ b'\n' ∷ [] in
        let w = write_all k name bytes d' in
        let o1 = write_outcome k w.0 in
        let s2 = step_unless k o1 cannot_sync (fsync name) w.1 in
        let s3 = step_always k s2.0 cannot_close (close name) s2.1 in
        let s4 = step_unless k s3.0 cannot_replace (rename name path) s3.1 in
        let h1 =
          write-Filled name bytes d d' w same fresh (write_all-WroteAll k laws name bytes d') in
        let h2 =
          step_unless-Filled name bytes o1 cannot_sync (fsync name) d w.1 (laws.fsync_law name w.1)
            h1 in
        let h3 =
          step_always-Filled name bytes s2.0 cannot_close (close name) d s2.1
            (laws.close_law name s2.1) h2 in
        let ne : name ≢ path = λ q. temporary_name-ne path attempt (sym q ∙ e) in
        let h4 = rename-Placed path name bytes s3.0 d s3.1 ne absent h3 in
        settle-Saved path name value s4.0 d s4.1 attempt e h4

    save_into-Saved :
        (path value : Bytes) (d : Disk) (t : Temporary × Disk)
        → Found path d t
        → Saved path value d (save_into k path value t.0 t.1)
    unfolding save_into
    save_into-Saved path value d (no_temporary e, d') same = (same path, λ p np. same p)
    save_into-Saved path value d (temporary name, d') (attempt, e, same, absent, fresh) =
        fill_temporary-Saved path value name d d' attempt e same absent fresh

    saved : (path value : Bytes) (d : Disk) → Saved path value d (save_state_value k path value d)
    unfolding save_state_value
    saved path value d = elim (Bool-cases (is_absolute_path path)) [
      | inl absolute ↦ rw absolute (
          save_into-Saved path value d (find_temporary k 16 0 path d)
            (find_temporary-Found 16 0 path d))
      | inr relative ↦ rw relative (refl, λ p np. refl)
    ]

    -- On any kernel that keeps the laws, a save ends by itself: no loop is left running. If it returns
    -- success, the state file holds the new value and a newline, and every other path is as it was, the
    -- temporary names included; if it returns an error, the state file is as it was, and so is every
    -- path but the temporary names.
    pub save_state_value-Saved :
        (path value : Bytes) (d : Disk)
        → Saved path value d (save_state_value k path value d)
          × ((save_state_value k path value d).0 ≢ err out_of_fuel)
    save_state_value-Saved path value d =
        (saved path value d, save_state_value-Ends k laws path value d)
