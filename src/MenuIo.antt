-- ===== src/MenuIo.antt =====
-- src/menu_io.cpp: `write_all`, which writes a buffer in as many calls as it takes. `errno_message`
-- only words an error and is not modelled.
use nes_deck.Prelude.{
  ℕ, zero, suc, ◌+◌, ◌≤◌, ◌≡◌, refl, sym, ap, ◌∙◌, [], ◌∷◌, ◌++◌, arith, Bytes, length, take, drop,
  some, append-nil, append_assoc, length-drop, take-append-drop,
}
use nes_deck.Kernel.{
  Kernel, KernelLaws, WriteResult, wrote, write_interrupted, write_failed, Wrote, SameBut,
}

-- `stalled` is the model's own: the loop had no fuel left.
pub data WriteAll : Type 0 where
  all_written write_error stalled : WriteAll

module _ (k : Kernel) where
  open k use {Disk, content, pending, write}

  -- What the loop does on each answer of `write`; `rest` is the loop itself.
  unfoldable pub write_turn :
      (Bytes → Disk → WriteAll × Disk) → WriteResult → Bytes → Disk → WriteAll × Disk
  write_turn rest (wrote zero) bytes d = (write_error, d)
  write_turn rest (wrote (suc n)) bytes d = rest (drop (suc n) bytes) d
  write_turn rest write_interrupted bytes d = rest bytes d
  write_turn rest write_failed bytes d = (write_error, d)

  unfoldable pub write_loop : ℕ → Bytes → Bytes → Disk → WriteAll × Disk
  write_loop fuel q [] d = (all_written, d)
  write_loop zero q (x ∷ xs) d = (stalled, d)
  write_loop (suc fuel) q (x ∷ xs) d =
      write_turn (write_loop fuel q) (write q (x ∷ xs) d).0 (x ∷ xs) (write q (x ∷ xs) d).1

  -- `write_all`. Each turn writes a byte or uses up a pending signal, or is the last.
  unfoldable pub write_all : Bytes → Bytes → Disk → WriteAll × Disk
  write_all q bytes d = write_loop (length bytes + pending d) q bytes d

  abbrev pub WroteAll : Bytes → Bytes → Disk → WriteAll × Disk → Type 0
  WroteAll q bytes d (all_written, d') =
      SameBut k q d d'
      × ((old : Bytes) → content d q ≡ some old → content d' q ≡ some (old ++ bytes))
  WroteAll q bytes d (write_error, d') = SameBut k q d d'
  WroteAll q bytes d (stalled, d') = ⊥

  -- What has been written before the rest.
  WroteAll-after :
      (q bytes rest : Bytes) (d d' : Disk) (r : WriteAll × Disk)
      → SameBut k q d d'
      → ((old : Bytes)
          → content d q ≡ some old
          → (before : Bytes) × (content d' q ≡ some (old ++ before)) × (before ++ rest ≡ bytes))
      → WroteAll q rest d' r
      → WroteAll q bytes d r
  WroteAll-after q bytes rest d d' (all_written, d'') same before (same', after) = (
    λ p ne. same' p ne ∙ same p ne,
    λ old e.
        let (pre, e', joined) = before old e in
        after (old ++ pre) e' ∙ ap some (append_assoc old pre rest ∙ ap (λ t. old ++ t) joined),
  )
  WroteAll-after q bytes rest d d' (write_error, d'') same before same' =
      λ p ne. same' p ne ∙ same p ne
  WroteAll-after q bytes rest d d' (stalled, d'') same before h = h

  turn_lem :
      (fuel : ℕ) (q bytes : Bytes) (r : WriteResult) (d d' : Disk)
      → ((bytes : Bytes) (d : Disk)
          → length bytes + pending d ≤ fuel
          → WroteAll q bytes d (write_loop fuel q bytes d))
      → length bytes + pending d ≤ suc fuel
      → Wrote k q bytes d r d'
      → WroteAll q bytes d (write_turn (write_loop fuel q) r bytes d')
  unfolding write_turn
  turn_lem fuel q bytes (wrote zero) d d' ih enough w = w.0
  turn_lem fuel q bytes (wrote (suc n)) d d' ih enough (same, more, fits, fewer) =
      WroteAll-after q bytes (drop (suc n) bytes) d d' _ same
        (λ old e. (take (suc n) bytes, more old e, take-append-drop (suc n) bytes))
        (ih (drop (suc n) bytes) d' (omega (arith, length-drop (suc n) bytes)))
  turn_lem fuel q bytes write_interrupted d d' ih enough (same, fewer) =
      WroteAll-after q bytes bytes d d' _ (λ p ne. same p)
        (λ old e. ([], same q ∙ e ∙ ap some (sym (append-nil old)), refl))
        (ih bytes d' (omega arith))
  turn_lem fuel q bytes write_failed d d' ih enough same = λ p ne. same p

  module _ (laws : KernelLaws k) where
    write_loop-WroteAll :
        (fuel : ℕ) (q bytes : Bytes) (d : Disk)
        → length bytes + pending d ≤ fuel
        → WroteAll q bytes d (write_loop fuel q bytes d)
    unfolding write_loop
    write_loop-WroteAll fuel q [] d enough =
        (λ p ne. refl, λ old e. e ∙ ap some (sym (append-nil old)))
    write_loop-WroteAll zero q (x ∷ xs) d enough = absurd (omega arith)
    write_loop-WroteAll (suc fuel) q (x ∷ xs) d enough =
        turn_lem fuel q (x ∷ xs) (write q (x ∷ xs) d).0 d (write q (x ∷ xs) d).1
          (λ bytes d'. write_loop-WroteAll fuel q bytes d') enough (laws.write_law q (x ∷ xs) d)

    -- On any kernel that keeps the laws, `write_all` ends by itself; if it reports success the whole
    -- of the data stands behind what the file held, and in no case is another file touched.
    pub write_all-WroteAll : (q bytes : Bytes) (d : Disk) → WroteAll q bytes d (write_all q bytes d)
    unfolding write_all
    write_all-WroteAll q bytes d =
        write_loop-WroteAll (length bytes + pending d) q bytes d (omega arith)
