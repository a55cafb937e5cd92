-- ===== src/Joypad/Slots/Reconnect.antt =====
-- A controller that comes back is given the slot that remembers it.
use nes_deck.Prelude.{
  ℕ, zero, suc, ◌≡◌, ◌≢◌, refl, sym, ap, ◌∙◌, arith, ◌⊎◌, inl, inr, Bool, true, false, Bool-cases,
  ◌&&◌, ◌||◌, List, [], ◌∷◌, none, some, Bytes, equal, equal_iff, get_elem?,
}
use mathlib.Core.Option.{some-injective}
use nes_deck.Joypad.{candidate_order}
use nes_deck.Joypad.Slots.{
  Slot, OpenCandidate, is_open, attach_candidate, attach_first, attach_wanted, remembers, same_port,
  reconnect, insert_candidate, sort_candidates,
}
use nes_deck.Joypad.Slots.Count.{Keeps}

not-some : {slot : Slot} → none ≡ some slot → ⊥
not-some e = cc

true-ne-false : true ≡ false → ⊥
true-ne-false e = cc

-- Some candidate at a port still has its descriptor.
abbrev pub available : Bytes → List OpenCandidate → Bool
available port [] = false
available port (offer ∷ offers) =
    is_open offer.candidate_fd && equal offer.candidate.physical_path port || available port offers

-- A slot that is connected to a controller at a port.
pub record At (port : Bytes) (slot : Slot) : Type 0 where
  pub connected : is_open slot.fd ≡ true
  pub at_port : slot.physical_path ≡ port

-- The slot of a player is connected to a controller at a port.
pub record PlayerAt (port : Bytes) (player : ℕ) (slots : List Slot) : Type 0 where
  pub slot : Slot
  pub found : get_elem? slots player ≡ some slot
  pub there : At port slot

insert_candidate-available :
    (port : Bytes) (offer : OpenCandidate) (offers : List OpenCandidate)
    → available port (insert_candidate offer offers) ≡ available port (offer ∷ offers)
unfolding insert_candidate
insert_candidate-available port offer [] = refl
insert_candidate-available port offer (other ∷ offers) =
    elim (Bool-cases (candidate_order other.candidate offer.candidate)) [
      | inl e ↦ simp e (ground (arith, insert_candidate-available port offer offers))
      | inr e ↦ simp e refl
    ]

pub sort_candidates-available :
    (port : Bytes) (offers : List OpenCandidate)
    → available port (sort_candidates offers) ≡ available port offers
unfolding sort_candidates
sort_candidates-available port [] = refl
sort_candidates-available port (offer ∷ offers) =
    insert_candidate-available port offer (sort_candidates offers)
    ∙ ap (λ b. is_open offer.candidate_fd && equal offer.candidate.physical_path port || b)
        (sort_candidates-available port offers)

different : (a b : Bytes) → a ≢ b → equal a b ≡ false
different a b ne = elim (Bool-cases (equal a b)) [
  | inl same ↦ absurd (ne ((equal_iff a b).0 same))
  | inr e ↦ e
]

-- What is taken for another port leaves the candidates at this one.
attach_first-available :
    (port : Bytes) (slot : Slot) (offers : List OpenCandidate)
    → slot.physical_path ≢ port
    → available port (attach_first (same_port slot) slot offers).1 ≡ available port offers
unfolding attach_first attach_candidate
attach_first-available port slot [] other = refl
attach_first-available port slot (offer ∷ offers) other =
    elim (Bool-cases (is_open offer.candidate_fd && same_port slot offer)) [
      | inl e ↦
          let port' =
            (equal_iff offer.candidate.physical_path slot.physical_path).0 (ground (arith, e)) in
          let miss = different offer.candidate.physical_path port (λ at. other (sym port' ∙ at)) in
          simp e (ground (arith, miss))
      | inr e ↦ simp e (
          ap (λ b. is_open offer.candidate_fd && equal offer.candidate.physical_path port || b)
            (attach_first-available port slot offers other))
    ]

attach_first-At :
    (port : Bytes) (slot : Slot) (offers : List OpenCandidate)
    → slot.physical_path ≡ port
    → available port offers ≡ true
    → At port (attach_first (same_port slot) slot offers).0
unfolding attach_first attach_candidate
attach_first-At port slot [] same some_offer = absurd (ground (arith, some_offer))
attach_first-At port slot (offer ∷ offers) same some_offer =
    elim (Bool-cases (is_open offer.candidate_fd && same_port slot offer)) [
      | inl e ↦ simp e (record {
        connected = ground (arith, e);
        at_port =
            (equal_iff offer.candidate.physical_path slot.physical_path).0 (ground (arith, e))
            ∙ same;
      })
      | inr e ↦ simp e (
          attach_first-At port slot offers same (
            ground (
              arith,
              ap (λ p. is_open offer.candidate_fd && equal offer.candidate.physical_path p)
                    (sym same)
                  ∙ e,
              some_offer,
            )))
    ]

-- No player before has a free slot that remembers the port.
abbrev pub FirstFor : Bytes → ℕ → List Slot → Type 0
FirstFor port player [] = Unit
FirstFor port zero (slot ∷ slots) = Unit
FirstFor port (suc player) (slot ∷ slots) =
    ((is_open slot.fd ≡ true) ⊎ (slot.physical_path ≢ port)) × FirstFor port player slots

attach_wanted-PlayerAt :
    (port : Bytes) (player : ℕ) (slots : List Slot) (offers : List OpenCandidate) (slot : Slot)
    → get_elem? slots player ≡ some slot
    → remembers slot ≡ true
    → slot.physical_path ≡ port
    → FirstFor port player slots
    → available port offers ≡ true
    → PlayerAt port player (attach_wanted remembers same_port slots offers).0
unfolding attach_wanted
attach_wanted-PlayerAt port player [] offers slot here wants same first some_offer =
    absurd (not-some here)
attach_wanted-PlayerAt port zero (s ∷ ss) offers slot here wants same first some_offer =
    let e : s ≡ slot = some-injective s slot here in
    let s_wants = ap remembers e ∙ wants in
    simp s_wants (record {
      slot = (attach_first (same_port s) s offers).0;
      found = refl;
      there = attach_first-At port s offers (ap (λ t. t.physical_path) e ∙ same) some_offer;
    })
attach_wanted-PlayerAt port (suc player) (s ∷ ss) offers slot here wants same (apart, first)
      some_offer =
    elim (Bool-cases (remembers s)) [
      | inl e ↦
          let offers' = (attach_first (same_port s) s offers).1 in
          let elsewhere : s.physical_path ≢ port = elim apart [
            | inl connected ↦ absurd (ground (arith, connected, e))
            | inr other ↦ other
          ] in
          let more =
            attach_wanted-PlayerAt port player ss offers' slot here wants same first
              (attach_first-available port s offers elsewhere ∙ some_offer) in
          simp e (record { slot = more.slot; found = more.found; there = more.there })
      | inr e ↦
          let more =
            attach_wanted-PlayerAt port player ss offers slot here wants same first some_offer in
          simp e (record { slot = more.slot; found = more.found; there = more.there })
    ]

pub reconnect-PlayerAt :
    (port : Bytes) (player : ℕ) (slots : List Slot) (offers : List OpenCandidate) (slot : Slot)
    → get_elem? slots player ≡ some slot
    → remembers slot ≡ true
    → slot.physical_path ≡ port
    → FirstFor port player slots
    → available port offers ≡ true
    → PlayerAt port player (reconnect slots offers).0
unfolding reconnect
reconnect-PlayerAt = attach_wanted-PlayerAt

-- A step that keeps what is connected keeps it.
pub Keeps-PlayerAt :
    (port : Bytes) (player : ℕ) (slots slots' : List Slot)
    → Keeps slots slots'
    → PlayerAt port player slots
    → PlayerAt port player slots'
Keeps-PlayerAt port player [] slots' keeps p = absurd (not-some p.found)
Keeps-PlayerAt port player (s ∷ ss) [] keeps p = absurd keeps
Keeps-PlayerAt port zero (s ∷ ss) (t ∷ ts) (kept, keeps) p =
    let e : s ≡ p.slot = some-injective s p.slot p.found in
    elim kept [
      | inl free ↦
          absurd (
            true-ne-false
              (sym p.there.connected ∙ ap (λ r. is_open r.fd) (sym e) ∙ ap is_open free))
      | inr same ↦ record { slot = p.slot; found = ap some (same ∙ e); there = p.there }
    ]
Keeps-PlayerAt port (suc player) (s ∷ ss) (t ∷ ts) (kept, keeps) p =
    let more =
      Keeps-PlayerAt port player ss ts keeps
        (record { slot = p.slot; found = p.found; there = p.there }) in
    record { slot = more.slot; found = more.found; there = more.there }
