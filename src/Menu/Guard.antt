-- ===== src/Menu/Guard.antt =====
-- `MenuControllerInputGuard`, which stops listening to a controller that sends more than twelve edges
-- in a second, until it has been quiet for one. Times are those of a clock that does not run back.
use nes_deck.Prelude.{
  ℕ, zero, suc, ◌+◌, ◌-◌, ◌≤◌, ◌<◌, ◌≡◌, refl, sym, ap, ◌∙◌, arith, ◌⊎◌, inl, inr, Bool, true,
  false, Bool-cases, ltb→lt, leb→le, not, ◌||◌, List, [], ◌∷◌, ◌++◌, Option, none, some, ltb, leb,
  if◌then◌else◌, length, length-append, length-drop, get_or, drop,
}
pub mod Erased
pub mod Spaced

pub record Guard : Type 0 where
  pub edge_times : List ℕ
  pub suspended : Bool
  -- `none` for -1.
  pub last_edge_at : Option ℕ

abbrev pub fresh : Guard
fresh = record { edge_times = []; suspended = false; last_edge_at = none }

-- The loop that erases edges of a second ago and before.
unfoldable pub erase_old : ℕ → List ℕ → List ℕ
erase_old now [] = []
erase_old now (t ∷ ts) = let rest = erase_old now ts in if leb 1000 (now - t) then rest else t ∷ ts

unfoldable pub accept_edge : ℕ → Guard → Bool × Guard
accept_edge now g =
    let times = erase_old now g.edge_times ++ now ∷ [] in
    if g.suspended
    then (false, record g { last_edge_at = some now })
    else if leb (length times) 12
    then (true, record g { edge_times = times; last_edge_at = some now })
    else (false, record { edge_times = times; suspended = true; last_edge_at = some now })

abbrev pub quiet_since : ℕ → Option ℕ → Bool
quiet_since now none = false
quiet_since now (some last) = leb 1000 (now - last)

unfoldable pub recover_if_quiet : ℕ → Guard → Bool × Guard
recover_if_quiet now g =
    if not g.suspended || not (quiet_since now g.last_edge_at) then (false, g) else (true, fresh)

-- What the menu's loop asks of the guard.
pub data Event : Type 0 where
  edge check : ℕ → Event

abbrev pub time_of : Event → ℕ
time_of (edge t) = t
time_of (check t) = t

-- The times of the edges that are accepted, behind those before.
unfoldable pub accepted : List Event → Guard → List ℕ → List ℕ
accepted [] g out = out
accepted (edge t ∷ events) g out =
    let (ok, g') = accept_edge t g in accepted events g' (if ok then out ++ t ∷ [] else out)
accepted (check t ∷ events) g out = accepted events (recover_if_quiet t g).1 out

-- Times that do not run back.
abbrev pub Ordered : ℕ → List Event → Type 0
Ordered clock [] = Unit
Ordered clock (e ∷ events) = (clock ≤ time_of e) × Ordered (time_of e) events

-- Of any thirteen in a row, the last is a second or more after the first.
abbrev pub IsSpaced : List ℕ → Type 0
IsSpaced out = (i : ℕ) → i + 12 < length out → get_or out i 0 + 1000 ≤ get_or out (i + 12) 0
