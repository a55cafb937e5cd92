-- ===== src/Joypad/Slots/Count.antt =====
-- Each step of the scan keeps the descriptors, and the slots that are connected.
use nes_deck.Prelude.{
  ℕ, ◌+◌, ◌≡◌, refl, sym, ap, ◌∙◌, arith, ◌⊎◌, inl, inr, Bool, true, false, Bool-cases, ◌&&◌, List,
  [], ◌∷◌, Option, none, some, ◌==◌, if◌then◌else◌,
}
use nes_deck.Joypad.{candidate_order}
use nes_deck.Joypad.Slots.{
  Slot, OpenCandidate, is_open, attach_candidate, attach_first, attach_wanted, remembers,
  never_used, same_port, reconnect, fill, reuse_slot, reuse, insert_candidate, sort_candidates,
}

-- How often a descriptor stands in a list.
abbrev pub once : ℕ → Option ℕ → ℕ
once d none = 0
once d (some e) = if d == e then 1 else 0

abbrev pub in_slots : ℕ → List Slot → ℕ
in_slots d [] = 0
in_slots d (slot ∷ slots) = once d slot.fd + in_slots d slots

abbrev pub in_offers : ℕ → List OpenCandidate → ℕ
in_offers d [] = 0
in_offers d (offer ∷ offers) = once d offer.candidate_fd + in_offers d offers

-- The same slots but for those that were free.
abbrev pub Keeps : List Slot → List Slot → Type 0
Keeps [] [] = Unit
Keeps [] (t ∷ ts) = ⊥
Keeps (s ∷ ss) [] = ⊥
Keeps (s ∷ ss) (t ∷ ts) = ((s.fd ≡ none) ⊎ (t ≡ s)) × Keeps ss ts

Keeps-refl : (slots : List Slot) → Keeps slots slots
Keeps-refl [] = tt
Keeps-refl (s ∷ ss) = (inr refl, Keeps-refl ss)

pub Keeps-trans : (a b c : List Slot) → Keeps a b → Keeps b c → Keeps a c
Keeps-trans [] [] c h g = g
Keeps-trans [] (y ∷ b) c h g = absurd h
Keeps-trans (x ∷ a) [] c h g = absurd h
Keeps-trans (x ∷ a) (y ∷ b) [] h g = absurd g
Keeps-trans (x ∷ a) (y ∷ b) (z ∷ c) (h, hs) (g, gs) = (
  elim h [
    | inl free ↦ inl free
    | inr same ↦ elim g [
      | inl free ↦ inl (ap (λ s. s.fd) (sym same) ∙ free)
      | inr same' ↦ inr (same' ∙ same)
    ]
  ],
  Keeps-trans a b c hs gs,
)

-- What a step of the scan keeps.
pub record Moves (slots : List Slot) (offers : List OpenCandidate)
    (r : List Slot × List OpenCandidate) : Type 0 where
  pub counted : (d : ℕ) → in_slots d r.0 + in_offers d r.1 ≡ in_slots d slots + in_offers d offers
  pub keeps : Keeps slots r.0

pub Moves-trans :
    (slots : List Slot) (offers : List OpenCandidate) (r r' : List Slot × List OpenCandidate)
    → Moves slots offers r
    → Moves r.0 r.1 r'
    → Moves slots offers r'
Moves-trans slots offers r r' f g = record {
  counted = λ d. g.counted d ∙ f.counted d;
  keeps = Keeps-trans slots r.0 r'.0 f.keeps g.keeps;
}

attach_first-counted :
    (suits : OpenCandidate → Bool) (slot : Slot) (offers : List OpenCandidate)
    → slot.fd ≡ none
    → (d : ℕ)
    → let (slot', offers') = attach_first suits slot offers in
      once d slot'.fd + in_offers d offers' ≡ in_offers d offers
unfolding attach_first attach_candidate
attach_first-counted suits slot [] free d = omega (arith, ap (once d) free)
attach_first-counted suits slot (offer ∷ offers) free d =
    elim (Bool-cases (is_open offer.candidate_fd && suits offer)) [
      | inl e ↦ simp e (omega arith)
      | inr e ↦ simp e (omega (arith, attach_first-counted suits slot offers free d))
    ]

module _ (wants : Slot → Bool) (suits : Slot → OpenCandidate → Bool) where
  attach_wanted-Moves :
      (slots : List Slot) (offers : List OpenCandidate)
      → ((s : Slot) → wants s ≡ true → s.fd ≡ none)
      → Moves slots offers (attach_wanted wants suits slots offers)
  unfolding attach_wanted
  attach_wanted-Moves [] offers free = record { counted = λ d. refl; keeps = tt }
  attach_wanted-Moves (slot ∷ slots) offers free = elim (Bool-cases (wants slot)) [
    | inl e ↦
        let gone = free slot e in
        let more = attach_wanted-Moves slots (attach_first (suits slot) slot offers).1 free in
        simp e (record {
          counted = λ d. omega (
            arith,
            more.counted d,
            attach_first-counted (suits slot) slot offers gone d,
            ap (once d) gone,
          );
          keeps = (inl gone, more.keeps);
        })
    | inr e ↦
        let more = attach_wanted-Moves slots offers free in
        simp e
          (record { counted = λ d. omega (arith, more.counted d); keeps = (inr refl, more.keeps) })
  ]

pub is_open-false : (fd : Option ℕ) → is_open fd ≡ false → fd ≡ none
is_open-false none e = refl
is_open-false (some d) e = cc

-- One candidate and the slots.
reuse_slot-counted :
    (offer : OpenCandidate) (slots : List Slot) (d : ℕ)
    → let (slots', offer') = reuse_slot offer slots in
      in_slots d slots' + once d offer'.candidate_fd ≡ in_slots d slots + once d offer.candidate_fd
unfolding reuse_slot attach_candidate
reuse_slot-counted offer [] d = refl
reuse_slot-counted offer (slot ∷ slots) d = elim (Bool-cases (is_open slot.fd)) [
  | inl e ↦ simp e (omega (arith, reuse_slot-counted offer slots d))
  | inr e ↦ simp e (omega (arith, ap (once d) (is_open-false slot.fd e)))
]

pub reuse_slot-Keeps :
    (offer : OpenCandidate) (slots : List Slot) → Keeps slots (reuse_slot offer slots).0
unfolding reuse_slot
reuse_slot-Keeps offer [] = tt
reuse_slot-Keeps offer (slot ∷ slots) = elim (Bool-cases (is_open slot.fd)) [
  | inl e ↦ simp e (inr refl, reuse_slot-Keeps offer slots)
  | inr e ↦ simp e (inl (is_open-false slot.fd e), Keeps-refl slots)
]

pub reuse-Moves :
    (offers : List OpenCandidate) (slots : List Slot) → Moves slots offers (reuse offers slots)
unfolding reuse
reuse-Moves [] slots = record { counted = λ d. refl; keeps = Keeps-refl slots }
reuse-Moves (offer ∷ offers) slots = elim (Bool-cases (is_open offer.candidate_fd)) [
  | inl e ↦
      let (slots', offer') = reuse_slot offer slots in
      let more = reuse-Moves offers slots' in
      simp e (record {
        counted = λ d. omega (arith, more.counted d, reuse_slot-counted offer slots d);
        keeps = Keeps-trans slots slots' _ (reuse_slot-Keeps offer slots) more.keeps;
      })
  | inr e ↦
      let more = reuse-Moves offers slots in
      simp e (record { counted = λ d. omega (arith, more.counted d); keeps = more.keeps })
]

insert_candidate-counted :
    (offer : OpenCandidate) (offers : List OpenCandidate) (d : ℕ)
    → in_offers d (insert_candidate offer offers) ≡ once d offer.candidate_fd + in_offers d offers
unfolding insert_candidate
insert_candidate-counted offer [] d = refl
insert_candidate-counted offer (other ∷ offers) d =
    elim (Bool-cases (candidate_order other.candidate offer.candidate)) [
      | inl e ↦ simp e (omega (arith, insert_candidate-counted offer offers d))
      | inr e ↦ simp e refl
    ]

pub sort_candidates-counted :
    (offers : List OpenCandidate) (d : ℕ)
    → in_offers d (sort_candidates offers) ≡ in_offers d offers
unfolding sort_candidates
sort_candidates-counted [] d = refl
sort_candidates-counted (offer ∷ offers) d =
    insert_candidate-counted offer (sort_candidates offers) d
    ∙ ap (λ n. once d offer.candidate_fd + n) (sort_candidates-counted offers d)

remembers-free : (s : Slot) → remembers s ≡ true → s.fd ≡ none
remembers-free s e = is_open-false s.fd (ground (arith, e))

never_used-free : (s : Slot) → never_used s ≡ true → s.fd ≡ none
never_used-free s e = is_open-false s.fd (ground (arith, e))

pub reconnect-Moves :
    (slots : List Slot) (offers : List OpenCandidate) → Moves slots offers (reconnect slots offers)
unfolding reconnect
reconnect-Moves slots offers = attach_wanted-Moves remembers same_port slots offers remembers-free

pub fill-Moves :
    (slots : List Slot) (offers : List OpenCandidate) → Moves slots offers (fill slots offers)
unfolding fill
fill-Moves slots offers =
    attach_wanted-Moves never_used (λ slot offer. true) slots offers never_used-free
