-- ===== src/Joypad/Slots.antt =====
-- The slots of the players of src/joypad_input.cpp: how `scan_gamepads` gives the controllers that it
-- has opened to players. A slot is a `GamepadDevice` without its buttons and axes, and a descriptor
-- that is -1 is `none`. What the directory holds and what its devices answer is the list of candidates.
pub mod Count
pub mod Reconnect
pub mod Scan
use nes_deck.Prelude.{
  ℕ, zero, suc, ◌+◌, Bool, true, false, not, ◌&&◌, ◌||◌, List, [], ◌∷◌, Option, none, some,
  if◌then◌else◌, Bytes, equal,
}
use nes_deck.Joypad.{Candidate, candidate_order}

pub record Slot : Type 0 where
  pub fd : Option ℕ
  pub path : Bytes
  pub physical_path : Bytes

pub record OpenCandidate : Type 0 where
  pub candidate_fd : Option ℕ
  pub candidate : Candidate

abbrev pub is_open : Option ℕ → Bool
is_open none = false
is_open (some d) = true

abbrev is_empty : Bytes → Bool
is_empty [] = true
is_empty (c ∷ cs) = false

-- A slot whose controller is gone, remembered or not.
unfoldable pub close_gamepad : Bool → Slot → Slot
close_gamepad remember slot = record {
  fd = none;
  path = [];
  physical_path = if remember then slot.physical_path else [];
}

unfoldable pub path_is_open : Bytes → List Slot → Bool
path_is_open path [] = false
path_is_open path (slot ∷ slots) =
    if is_open slot.fd && equal slot.path path then true else path_is_open path slots

-- The slot and the candidate after `attach_candidate` of one that has a descriptor.
unfoldable pub attach_candidate : OpenCandidate → Slot → Slot × OpenCandidate
attach_candidate offer slot = (
  record {
    fd = offer.candidate_fd;
    path = offer.candidate.path;
    physical_path = offer.candidate.physical_path;
  },
  record offer { candidate_fd = none },
)

-- The first candidate that still has its descriptor and that suits is attached to a slot.
unfoldable pub attach_first :
    (OpenCandidate → Bool) → Slot → List OpenCandidate → Slot × List OpenCandidate
attach_first suits slot [] = (slot, [])
attach_first suits slot (offer ∷ offers) =
    let (attached, taken) = attach_candidate offer slot in
    let (slot', rest) = attach_first suits slot offers in
    if is_open offer.candidate_fd && suits offer
    then (attached, taken ∷ offers)
    else (slot', offer ∷ rest)

-- A loop over the players, of which some want a candidate of some kind.
unfoldable pub attach_wanted :
    (Slot → Bool)
    → (Slot → OpenCandidate → Bool)
    → List Slot
    → List OpenCandidate
    → List Slot × List OpenCandidate
attach_wanted wants suits [] offers = ([], offers)
attach_wanted wants suits (slot ∷ slots) offers =
    let (slot', offers') = attach_first (suits slot) slot offers in
    let (same, left) = attach_wanted wants suits slots offers in
    let (rest, left') = attach_wanted wants suits slots offers' in
    if wants slot then (slot' ∷ rest, left') else (slot ∷ same, left)

abbrev pub remembers : Slot → Bool
remembers slot = not (is_open slot.fd || is_empty slot.physical_path)

abbrev pub never_used : Slot → Bool
never_used slot = not (is_open slot.fd || not (is_empty slot.physical_path))

abbrev pub same_port : Slot → OpenCandidate → Bool
same_port slot offer = equal offer.candidate.physical_path slot.physical_path

unfoldable pub reconnect : List Slot → List OpenCandidate → List Slot × List OpenCandidate
reconnect = attach_wanted remembers same_port

unfoldable pub fill : List Slot → List OpenCandidate → List Slot × List OpenCandidate
fill = attach_wanted never_used (λ slot offer. true)

-- The first slot that is free takes a candidate.
unfoldable pub reuse_slot : OpenCandidate → List Slot → List Slot × OpenCandidate
reuse_slot offer [] = ([], offer)
reuse_slot offer (slot ∷ slots) =
    let (attached, taken) = attach_candidate offer slot in
    let (rest, offer') = reuse_slot offer slots in
    if is_open slot.fd then (slot ∷ rest, offer') else (attached ∷ slots, taken)

unfoldable pub reuse : List OpenCandidate → List Slot → List Slot × List OpenCandidate
reuse [] slots = (slots, [])
reuse (offer ∷ offers) slots =
    let (slots', offer') = reuse_slot offer slots in
    let (skipped, left) = reuse offers slots in
    let (rest, left') = reuse offers slots' in
    if is_open offer.candidate_fd then (rest, offer' ∷ left') else (skipped, offer ∷ left)

-- By insertion, in place of `std::sort`.
unfoldable pub insert_candidate : OpenCandidate → List OpenCandidate → List OpenCandidate
insert_candidate offer [] = offer ∷ []
insert_candidate offer (other ∷ offers) =
    let later = insert_candidate offer offers in
    if candidate_order other.candidate offer.candidate
    then other ∷ later
    else offer ∷ other ∷ offers

unfoldable pub sort_candidates : List OpenCandidate → List OpenCandidate
sort_candidates [] = []
sort_candidates (offer ∷ offers) = insert_candidate offer (sort_candidates offers)

-- What `scan_gamepads` makes of the slots, and the candidates with the descriptors that it closes.
unfoldable pub assign_slots : List Slot → List OpenCandidate → List Slot × List OpenCandidate
assign_slots slots offers =
    let (slots1, offers1) = reconnect slots (sort_candidates offers) in
    let (slots2, offers2) = fill slots1 offers1 in reuse offers2 slots2
