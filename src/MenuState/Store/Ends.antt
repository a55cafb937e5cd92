-- ===== src/MenuState/Store/Ends.antt =====
-- A save ends by itself.
use nes_deck.Prelude.{
  ℕ, zero, suc, ◌+◌, ◌≡◌, ◌≢◌, inl, inr, Bool, true, false, Bool-cases, ◌∷◌, [], ◌++◌, Bytes,
  if◌then◌else◌,
}
use nes_deck.Kernel.{Kernel, KernelLaws, CreateResult, created, exists, create_failed}
use nes_deck.MenuIo.{
  WriteAll, all_written, write_error, stalled, write_all, WroteAll, write_all-WroteAll,
}
use nes_deck.MenuState.Result.{
  StateError, ok, err, not_absolute, cannot_write, cannot_sync, cannot_close, cannot_replace,
  out_of_fuel,
}
use nes_deck.MenuState.Store.{
  Temporary, temporary, no_temporary, Outcome, create_turn, find_temporary, save_into,
  write_outcome, step_unless, step_always, settle, fill_temporary, save_state_value,
}
use nes_deck.Text.{is_absolute_path}

abbrev Ends : Outcome → Type 0
Ends o = o ≢ err out_of_fuel

err-Ends : (e : StateError) → e ≢ out_of_fuel → Ends (err e)
err-Ends e ne q = ne (err-injective e out_of_fuel q)
  where
    err-injective : (a b : StateError) → ◌≡◌ {A = Outcome} (err a) (err b) → a ≡ b
    err-injective a b q = cc

if-Ends :
    (b : Bool) (t : Unit {0}) (why : StateError)
    → why ≢ out_of_fuel
    → Ends (if b then ok t else err why)
if-Ends true t why named = λ q. cc
if-Ends false t why named = err-Ends why named

-- A search that has found a name, or has an error of the source.
abbrev Found : Temporary → Type 0
Found (temporary name) = Unit
Found (no_temporary e) = e ≢ out_of_fuel

module _ (k : Kernel) where
  open k use {Disk, create_exclusive, fsync, close, rename, unlink}

  create_turn-Found :
      (rest : Disk → Temporary × Disk) (name : Bytes) (r : CreateResult) (d : Disk)
      → Found (rest d).0
      → Found (create_turn k rest name r d).0
  unfolding create_turn
  create_turn-Found rest name created d h = tt
  create_turn-Found rest name exists d h = h
  create_turn-Found rest name create_failed d h = λ q. cc

  find_temporary-Found :
      (rounds attempt : ℕ) (path : Bytes) (d : Disk)
      → Found (find_temporary k rounds attempt path d).0
  unfolding find_temporary
  find_temporary-Found zero attempt path d = λ q. cc
  find_temporary-Found (suc rounds) attempt path d =
      create_turn-Found (find_temporary k rounds (attempt + 1) path) _ _ _
        (find_temporary-Found rounds (attempt + 1) path _)

  step_unless-Ends :
      (o : Outcome) (why : StateError) (step : Disk → Bool × Disk) (d : Disk)
      → why ≢ out_of_fuel
      → Ends o
      → Ends (step_unless k o why step d).0
  unfolding step_unless
  step_unless-Ends (err e) why step d named ends = ends
  step_unless-Ends (ok t) why step d named ends = if-Ends (step d).0 t why named

  step_always-Ends :
      (o : Outcome) (why : StateError) (step : Disk → Bool × Disk) (d : Disk)
      → why ≢ out_of_fuel
      → Ends o
      → Ends (step_always k o why step d).0
  unfolding step_always
  step_always-Ends (err e) why step d named ends = ends
  step_always-Ends (ok t) why step d named ends = if-Ends (step d).0 t why named

  settle-Ends :
      (path name : Bytes) (o : Outcome) (d : Disk) → Ends o → Ends (settle k path name o d).0
  unfolding settle
  settle-Ends path name (err e) d ends = ends
  settle-Ends path name (ok t) d ends = ends

  write_outcome-Ends :
      (name bytes : Bytes) (d : Disk) (w : WriteAll × Disk)
      → WroteAll k name bytes d w
      → Ends (write_outcome k w.0)
  unfolding write_outcome
  write_outcome-Ends name bytes d (all_written, d') h = λ q. cc
  write_outcome-Ends name bytes d (write_error, d') h = err-Ends cannot_write (λ q. cc)
  write_outcome-Ends name bytes d (stalled, d') h = absurd h

  module _ (laws : KernelLaws k) where
    fill_temporary-Ends :
        (path value name : Bytes) (d : Disk) → Ends (fill_temporary k path value name d).0
    unfolding fill_temporary
    fill_temporary-Ends path value name d =
        let bytes = value ++ b'\n' ∷ [] in
        let wrote =
          write_outcome-Ends name bytes d (write_all k name bytes d)
            (write_all-WroteAll k laws name bytes d) in
        settle-Ends path name _ _ (
          step_unless-Ends _ cannot_replace (rename name path) _ (λ q. cc)
            (step_always-Ends _ cannot_close (close name) _ (λ q. cc)
              (step_unless-Ends _ cannot_sync (fsync name) _ (λ q. cc) wrote)))

    save_into-Ends :
        (path value : Bytes) (t : Temporary) (d : Disk)
        → Found t
        → Ends (save_into k path value t d).0
    unfolding save_into
    save_into-Ends path value (no_temporary e) d named = err-Ends e named
    save_into-Ends path value (temporary name) d named = fill_temporary-Ends path value name d

    pub save_state_value-Ends :
        (path value : Bytes) (d : Disk) → (save_state_value k path value d).0 ≢ err out_of_fuel
    unfolding save_state_value
    save_state_value-Ends path value d = elim (Bool-cases (is_absolute_path path)) [
      | inl absolute ↦ rw absolute (
          save_into-Ends path value (find_temporary k 16 0 path d).0 _
            (find_temporary-Found 16 0 path d))
      | inr relative ↦ rw relative (err-Ends not_absolute (λ q. cc))
    ]
