-- ===== src/MenuState/Result.antt =====
-- What the functions of src/menu_state.cpp return, with an error for each message.
pub data StateError : Type 0 where
  not_absolute cannot_create cannot_allocate cannot_write cannot_sync cannot_close : StateError
  cannot_replace cannot_open cannot_stat not_small_file cannot_read too_large : StateError
  out_of_range malformed empty not_a_number cannot_truncate : StateError
  -- The model's own: a loop had no fuel left.
  out_of_fuel : StateError

pub data Result {ℓ} (A : Type ℓ) : Type ℓ where
  ok : A → Result A
  err : StateError → Result A
