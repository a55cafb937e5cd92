-- ===== src/MenuState/Store/Load.antt =====
-- A load returns the bytes of the file, and changes nothing.
use nes_deck.Prelude.{
  ℕ, zero, suc, ◌+◌, ◌-◌, ◌≤◌, ◌<◌, ◌≡◌, ◌≢◌, refl, sym, ap, ◌∙◌, arith, ◌⊎◌, inl, inr, false, not,
  ◌||◌, Bool-cases, [], ◌∷◌, ◌++◌, Option, none, some, Option-cases, Bytes, length, length-append,
  take, drop, take-append-drop, append_assoc, append-nil, ltb, ◌==◌,
}
use nes_deck.Kernel.{
  Kernel, KernelLaws, Same, Stat, Read, ReadResult, chunk, read_interrupted, read_failed,
  StatResult, stat_of, stat_failed, OpenResult, opened, missing, open_failed, Opened,
}
use nes_deck.MenuState.Result.{Result, ok, err, out_of_fuel}
use nes_deck.MenuState.Store.{
  read_turn, read_loop, check_size, read_checked, load_opened, load_state_value,
}
use nes_deck.Text.{is_absolute_path}

drop-prefix : (got rest : Bytes) → drop (length got) (got ++ rest) ≡ rest
drop-prefix [] rest = refl
drop-prefix (x ∷ xs) rest = drop-prefix xs rest

module _ (k : Kernel) where
  open k use {Disk, content, pending, read, stat, close, open_file}

  -- `got` is the front of the file.
  record Front (path : Bytes) (d : Disk) (got : Bytes) : Type 0 where
    rest : Bytes
    whole : content d path ≡ some (got ++ rest)

  -- What the reading loop returns of an open file.
  abbrev ReadUp : Bytes → ℕ → Disk → Result Bytes × Disk → Type 0
  ReadUp path room d (ok got, d') =
      Same k d d' × (length got ≤ room) × ((length got ≡ room) ⊎ (content d path ≡ some got))
  ReadUp path room d (err e, d') = Same k d d' × (e ≢ out_of_fuel)

  -- What a load returns, whether the file is there or not.
  abbrev pub Loaded : Bytes → Disk → Result (Option Bytes) × Disk → Type 0
  Loaded path d (ok none, d') = Same k d d' × (content d path ≡ none)
  Loaded path d (ok (some bytes), d') =
      Same k d d' × (content d path ≡ some bytes) × (length bytes ≤ 64)
  Loaded path d (err e, d') = Same k d d' × (e ≢ out_of_fuel)

  Same-trans : {d d' d'' : Disk} → Same k d d' → Same k d' d'' → Same k d d''
  Same-trans a b = λ p. b p ∙ a p

  ReadUp-after :
      (path : Bytes) (room : ℕ) (d d' : Disk) (r : Result Bytes × Disk)
      → Same k d d'
      → ReadUp path room d' r
      → ReadUp path room d r
  ReadUp-after path room d d' (ok got, d'') same (same', small, inl full) =
      (Same-trans same same', small, inl full)
  ReadUp-after path room d d' (ok got, d'') same (same', small, inr whole) =
      (Same-trans same same', small, inr (sym (same path) ∙ whole))
  ReadUp-after path room d d' (err e, d'') same (same', ne) = (Same-trans same same', ne)

  Loaded-after :
      (path : Bytes) (d d' : Disk) (r : Result (Option Bytes) × Disk)
      → Same k d d'
      → Loaded path d' r
      → Loaded path d r
  Loaded-after path d d' (ok none, d'') same (same', absent) =
      (Same-trans same same', sym (same path) ∙ absent)
  Loaded-after path d d' (ok (some bytes), d'') same (same', is, short) =
      (Same-trans same same', sym (same path) ∙ is, short)
  Loaded-after path d d' (err e, d'') same (same', ne) = (Same-trans same same', ne)

  Front-end :
      {path : Bytes} {d : Disk} {got : Bytes} {room : ℕ} (front : Front path d got)
      → (◌≡◌ {A = Bytes} [] [] → 0 < room - length got → drop (length got) (got ++ front.rest) ≡ [])
      → length got < room
      → content d path ≡ some got
  Front-end {got = got} front law small =
      let none_left = sym (drop-prefix got front.rest) ∙ law refl (omega arith) in
      front.whole ∙ ap some (ap (λ t. got ++ t) none_left ∙ append-nil got)

  Front-step :
      {path : Bytes} {d d' : Disk} {got bytes : Bytes} (front : Front path d got)
      → Same k d d'
      → bytes ≡ take (length bytes) (drop (length got) (got ++ front.rest))
      → Front path d' (got ++ bytes)
  Front-step {path} {d} {d'} {got} {bytes} front same law =
      let read : bytes ≡ take (length bytes) front.rest =
        law ∙ ap (take (length bytes)) (drop-prefix got front.rest) in
      let behind = drop (length bytes) front.rest in
      record {
        rest = behind;
        whole =
            same path
            ∙ front.whole
            ∙ ap some (
                ap (λ t. got ++ t)
                  (sym (ap (λ t. t ++ behind) read ∙ take-append-drop (length bytes) front.rest))
                ∙ sym (append_assoc got bytes behind));
      }

  turn_lem :
      (fuel : ℕ) (path : Bytes) (room : ℕ) (got : Bytes) (r : ReadResult) (d d' : Disk)
      → ((got : Bytes) (d : Disk)
          → Front path d got
          → length got ≤ room
          → (room - length got) + pending d ≤ fuel
          → ReadUp path room d (read_loop k fuel path room got d))
      → Front path d got
      → length got < room
      → (room - length got) + pending d ≤ suc fuel
      → Read k path (length got) (room - length got) d r d'
      → ReadUp path room d (read_turn k (read_loop k fuel path room) got r d')
  unfolding read_turn
  turn_lem fuel path room got (chunk []) d d' ih front small enough (same, law, fits, fewer) =
      (same, omega arith, inr (Front-end front (law _ front.whole).1 small))
  turn_lem fuel path room got (chunk (c ∷ cs)) d d' ih front small enough (same, law, fits, fewer) =
      ReadUp-after path room d d' _ same (
        ih (got ++ c ∷ cs) d' (Front-step front same (law _ front.whole).0)
          (omega (arith, length-append got (c ∷ cs))) (omega (arith, length-append got (c ∷ cs))))
  turn_lem fuel path room got read_interrupted d d' ih front small enough (same, fewer) =
      ReadUp-after path room d d' _ same (
        ih got d' (record { rest = front.rest; whole = same path ∙ front.whole }) (omega arith)
          (omega arith))
  turn_lem fuel path room got read_failed d d' ih front small enough same = (same, λ e. cc)

  module _ (laws : KernelLaws k) where
    read_loop-ReadUp :
        (fuel : ℕ) (path : Bytes) (room : ℕ) (got : Bytes) (d : Disk)
        → Front path d got
        → length got ≤ room
        → (room - length got) + pending d ≤ fuel
        → ReadUp path room d (read_loop k fuel path room got d)
    unfolding read_loop
    read_loop-ReadUp zero path room got d front small enough =
        let full : ltb (length got) room ≡ false = ground arith in
        rw full ((λ p. refl), small, inl (omega arith))
    read_loop-ReadUp (suc fuel) path room got d front small enough =
        elim (Bool-cases (ltb (length got) room)) [
          | inl more ↦ rw more (
              turn_lem fuel path room got (read path (length got) (room - length got) d).0 d
                (read path (length got) (room - length got) d).1
                (λ got' d'. read_loop-ReadUp fuel path room got' d') front (ground arith) enough
                (laws.read_law path (length got) (room - length got) d))
          | inr full ↦ rw full ((λ p. refl), small, inl (ground arith))
        ]

    check_size-Loaded :
        (path : Bytes) (d : Disk) (r : Result Bytes × Disk) (d' : Disk)
        → ReadUp path 65 d r
        → Same k r.1 d'
        → Loaded path d (check_size k r.0, d')
    unfolding check_size
    check_size-Loaded path d (err e, d1) d' (same, ne) same' = (Same-trans same same', ne)
    check_size-Loaded path d (ok got, d1) d' (same, small, inl full) same' =
        rw full (Same-trans same same', λ e. cc)
    check_size-Loaded path d (ok got, d1) d' (same, small, inr whole) same' =
        elim (Bool-cases (length got == 65)) [
          | inl full ↦ rw full (Same-trans same same', λ e. cc)
          | inr short ↦ rw short (Same-trans same same', whole, ground arith)
        ]

    read_checked-Loaded :
        (path : Bytes) (s : StatResult) (d d' : Disk)
        → Stat k path d s d'
        → Loaded path d (read_checked k path s d')
    unfolding read_checked
    read_checked-Loaded path stat_failed d d' same =
        (Same-trans same (laws.close_law path d'), λ e. cc)
    read_checked-Loaded path (stat_of regular size) d d' (same, there) =
        elim (Bool-cases (not regular || ltb 64 size)) [
          | inl refused ↦ rw refused (Same-trans same (laws.close_law path d'), λ e. cc)
          | inr good ↦ elim (Option-cases (content d' path)) [
            | inl gone ↦ absurd (there (ground arith) (sym (same path) ∙ gone))
            | inr (bytes, is) ↦
                let r = read_loop k (65 + pending d') path 65 [] d' in
                rw good (
                  Loaded-after path d d' _ same (
                    check_size-Loaded path d' r (close path r.1).1
                      (read_loop-ReadUp (65 + pending d') path 65 [] d'
                        (record { rest = bytes; whole = is }) (omega arith) (omega arith))
                      (laws.close_law path r.1)))
          ]
        ]

    load_opened-Loaded :
        (path : Bytes) (r : OpenResult) (d d' : Disk)
        → Opened k path d r d'
        → Loaded path d (load_opened k path r d')
    unfolding load_opened
    load_opened-Loaded path missing d d' (same, absent) = (same, absent)
    load_opened-Loaded path open_failed d d' same = (same, λ e. cc)
    load_opened-Loaded path opened d d' same =
        Loaded-after path d d' _ same
          (read_checked-Loaded path (stat path d').0 d' (stat path d').1 (laws.stat_law path d'))

    -- On any kernel that keeps the laws a load ends by itself and changes no file; if it returns
    -- bytes they are the whole file, at most 64 of them, and if it returns that the file is missing
    -- there is none.
    pub load_state_value-Loaded :
        (path : Bytes) (d : Disk) → Loaded path d (load_state_value k path d)
    unfolding load_state_value
    load_state_value-Loaded path d = elim (Bool-cases (is_absolute_path path)) [
      | inl absolute ↦ rw absolute (
          load_opened-Loaded path (open_file path d).0 d (open_file path d).1
            (laws.open_law path d))
      | inr relative ↦ rw relative ((λ p. refl), λ e. cc)
    ]
