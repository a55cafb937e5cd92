-- ===== src/Joypad/Slots/Scan.antt =====
-- What `scan_gamepads` makes of the slots.
use nes_deck.Prelude.{
  ℕ, ◌+◌, ◌≡◌, refl, ap, ◌∙◌, arith, ◌⊎◌, inl, inr, true, Bool-cases, List, [], ◌∷◌, All, none,
  some, get_elem?,
}
use nes_deck.Joypad.Slots.{
  Slot, OpenCandidate, is_open, attach_candidate, remembers, reconnect, fill, reuse_slot, reuse,
  sort_candidates, assign_slots,
}
use nes_deck.Joypad.Slots.Count.{
  in_slots, in_offers, Keeps, Moves, Moves-trans, is_open-false, reuse-Moves,
  sort_candidates-counted, reconnect-Moves, fill-Moves,
}
use nes_deck.Joypad.Slots.Reconnect.{
  available, PlayerAt, FirstFor, sort_candidates-available, reconnect-PlayerAt, Keeps-PlayerAt,
}

-- No slot is free, or no candidate has its descriptor.
abbrev pub Full : List Slot → Type 0
Full = All (λ s. is_open s.fd ≡ true)

abbrev pub Placed : List OpenCandidate → Type 0
Placed = All (λ o. o.candidate_fd ≡ none)

Full-Keeps : (a b : List Slot) → Full a → Keeps a b → Full b
Full-Keeps [] [] f k = tt
Full-Keeps [] (t ∷ ts) f k = absurd k
Full-Keeps (s ∷ ss) [] f k = absurd k
Full-Keeps (s ∷ ss) (t ∷ ts) (open_s, f) (inl free, k) =
    absurd (ground (arith, open_s, ap is_open free))
Full-Keeps (s ∷ ss) (t ∷ ts) (open_s, f) (inr same, k) =
    (ap (λ u. is_open u.fd) same ∙ open_s, Full-Keeps ss ts f k)

reuse_slot_or :
    (offer : OpenCandidate) (slots : List Slot)
    → ((reuse_slot offer slots).1.candidate_fd ≡ none) ⊎ Full (reuse_slot offer slots).0
unfolding reuse_slot attach_candidate
reuse_slot_or offer [] = inr tt
reuse_slot_or offer (slot ∷ slots) = elim (Bool-cases (is_open slot.fd)) [
  | inl e ↦ elim (reuse_slot_or offer slots) [
    | inl placed ↦ inl (simp e placed)
    | inr full ↦ inr (simp e (refl, full))
  ]
  | inr e ↦ inl (simp e refl)
]

reuse_or :
    (offers : List OpenCandidate) (slots : List Slot)
    → Placed (reuse offers slots).1 ⊎ Full (reuse offers slots).0
unfolding reuse
reuse_or [] slots = inl tt
reuse_or (offer ∷ offers) slots = elim (Bool-cases (is_open offer.candidate_fd)) [
  | inl e ↦
      let slots' = (reuse_slot offer slots).0 in
      elim (reuse_slot_or offer slots) [
        | inl placed ↦ elim (reuse_or offers slots') [
          | inl rest ↦ inl (simp e (placed, rest))
          | inr full ↦ inr (simp e full)
        ]
        | inr full ↦ inr (simp e (Full-Keeps slots' _ full (reuse-Moves offers slots').keeps))
      ]
  | inr e ↦ elim (reuse_or offers slots) [
    | inl rest ↦ inl (simp e (is_open-false offer.candidate_fd e, rest))
    | inr full ↦ inr (simp e full)
  ]
]

-- What a scan does with the slots and the candidates.
pub record Assigns (slots : List Slot) (offers : List OpenCandidate)
    (r : List Slot × List OpenCandidate) : Type 0 where
  -- Each descriptor is as often in the slots and among what is closed as before.
  pub counted : (d : ℕ) → in_slots d r.0 + in_offers d r.1 ≡ in_slots d slots + in_offers d offers
  pub keeps : Keeps slots r.0
  pub none_left : Placed r.1 ⊎ Full r.0
  pub returns :
      (player : ℕ) (slot : Slot)
      → get_elem? slots player ≡ some slot
      → remembers slot ≡ true
      → FirstFor slot.physical_path player slots
      → available slot.physical_path offers ≡ true
      → PlayerAt slot.physical_path player r.0

assign_slots-Moves :
    (slots : List Slot) (offers : List OpenCandidate)
    → let (slots1, offers1) = reconnect slots (sort_candidates offers) in
      Moves slots1 offers1 (assign_slots slots offers)
unfolding assign_slots
assign_slots-Moves slots offers =
    let (slots1, offers1) = reconnect slots (sort_candidates offers) in
    let (slots2, offers2) = fill slots1 offers1 in
    Moves-trans slots1 offers1 (slots2, offers2) _ (fill-Moves slots1 offers1)
      (reuse-Moves offers2 slots2)

-- A scan, for any slots and any candidates: no descriptor is lost or held twice, each being in a slot or
-- closed as often as it was in a slot or opened; a connected slot stays as it is; candidates are closed
-- only where every slot is connected; and a free slot that remembers a port at which a candidate was
-- found is connected to a controller at that port, if no free slot of a player before remembers it too.
pub assign_slots-Assigns :
    (slots : List Slot) (offers : List OpenCandidate)
    → Assigns slots offers (assign_slots slots offers)
unfolding assign_slots
assign_slots-Assigns slots offers =
    let sorted = sort_candidates offers in
    let r1 = reconnect slots sorted in
    let first = reconnect-Moves slots sorted in
    let later = assign_slots-Moves slots offers in
    let all = Moves-trans slots sorted r1 _ first later in
    record {
      counted =
          λ d. all.counted d ∙ ap (λ n. in_slots d slots + n) (sort_candidates-counted offers d);
      keeps = all.keeps;
      none_left = reuse_or _ _;
      returns = λ player slot here wants alone some_offer.
          Keeps-PlayerAt slot.physical_path player r1.0 _ later.keeps (
            reconnect-PlayerAt slot.physical_path player slots sorted slot here wants refl alone
              (sort_candidates-available slot.physical_path offers ∙ some_offer));
    }
