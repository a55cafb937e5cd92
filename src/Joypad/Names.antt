-- ===== src/Joypad/Names.antt =====
-- The names of event devices, and the order in which controllers are given their slots.
use nes_deck.Prelude.{
  ◌≡◌, ◌≢◌, ◌≤◌, refl, sym, ap, ap₂, ◌∙◌, arith, ◌↔◌, ◌⊎◌, inl, inr, Bool, true, false, Bool-cases,
  [], ◌∷◌, ◌++◌, All, Bytes, equal, equal_iff, codes,
}
use nes_deck.Joypad.{is_event_name, all_digits, less, Candidate, candidate_order}

less-irreflexive : (a : Bytes) → less a a ≡ false
unfolding less
less-irreflexive [] = refl
less-irreflexive (c ∷ cs) = ground (arith, less-irreflexive cs)

less-transitive : (a b c : Bytes) → less a b ≡ true → less b c ≡ true → less a c ≡ true
unfolding less
less-transitive [] [] [] h h' = ground (arith, h)
less-transitive [] (y ∷ ys) [] h h' = ground (arith, h')
less-transitive [] b (z ∷ zs) h h' = ground (arith, h, h')
less-transitive (x ∷ xs) [] c h h' = ground (arith, h, h')
less-transitive (x ∷ xs) (y ∷ ys) [] h h' = ground (arith, h, h')
less-transitive (x ∷ xs) (y ∷ ys) (z ∷ zs) h h' = ground (arith, h, h', less-transitive xs ys zs)

less-trichotomy : (a b : Bytes) → less a b ≡ false → less b a ≡ false → a ≡ b
unfolding less
less-trichotomy [] [] h h' = refl
less-trichotomy [] (y ∷ ys) h h' = ground (arith, h, h')
less-trichotomy (x ∷ xs) [] h h' = ground (arith, h, h')
less-trichotomy (x ∷ xs) (y ∷ ys) h h' =
    let e : x ≡ y = ground (arith, h, h') in
    ap₂ ◌∷◌ e (less-trichotomy xs ys (ground (arith, h, h', e)) (ground (arith, h, h', e)))

-- Smaller by the physical path, or by the path where the physical paths agree.
abbrev Before : Candidate → Candidate → Type 0
Before a b =
    (less a.physical_path b.physical_path ≡ true)
    ⊎ ((a.physical_path ≡ b.physical_path) × (less a.path b.path ≡ true))

candidate_order-Before : (a b : Candidate) → candidate_order a b ≡ true → Before a b
unfolding candidate_order
candidate_order-Before a b h = elim (Bool-cases (equal a.physical_path b.physical_path)) [
  | inl e ↦ inr ((equal_iff a.physical_path b.physical_path).0 e, ground (arith, e, h))
  | inr e ↦ inl (ground (arith, e, h))
]

Before-candidate_order : (a b : Candidate) → Before a b → candidate_order a b ≡ true
unfolding candidate_order
Before-candidate_order a b (inl h) = elim (Bool-cases (equal a.physical_path b.physical_path)) [
  | inl e ↦
      let same = (equal_iff a.physical_path b.physical_path).0 e in
      absurd (ground (arith, rw same at h, less-irreflexive b.physical_path))
  | inr e ↦ rw e h
]
Before-candidate_order a b (inr (same, h)) =
    rw ((equal_iff a.physical_path b.physical_path).1 same) h

Before-transitive : (a b c : Candidate) → Before a b → Before b c → Before a c
Before-transitive a b c (inl h) (inl h') =
    inl (less-transitive a.physical_path b.physical_path c.physical_path h h')
Before-transitive a b c (inl h) (inr (same, h')) = inl (rw same at h)
Before-transitive a b c (inr (same, h)) (inl h') = inl (rw same h')
Before-transitive a b c (inr (same, h)) (inr (same', h')) =
    inr (same ∙ same', less-transitive a.path b.path c.path h h')

neither-equal :
    (a b : Candidate)
    → candidate_order a b ≡ false
    → candidate_order b a ≡ false
    → (a.physical_path ≡ b.physical_path) × (a.path ≡ b.path)
neither-equal a b h h' =
    let physical =
      less-trichotomy a.physical_path b.physical_path (not_before a b h).0 (not_before b a h').0 in
    (
      physical,
      less-trichotomy a.path b.path ((not_before a b h).1 physical)
          ((not_before b a h').1 (sym physical)),
    )
  where
    refuted : (t : Bool) → (t ≡ true → ⊥) → t ≡ false
    refuted true n = absurd (n refl)
    refuted false n = refl

    not_before :
        (a b : Candidate)
        → candidate_order a b ≡ false
        → (less a.physical_path b.physical_path ≡ false)
          × (a.physical_path ≡ b.physical_path → less a.path b.path ≡ false)
    not_before a b h = (
      refuted _ (λ t. ground (arith, h, Before-candidate_order a b (inl t))),
      λ e. refuted _ (λ t. ground (arith, h, Before-candidate_order a b (inr (e, t)))),
    )

-- The order that candidates are sorted by is a strict order, as `std::sort` needs: no candidate is
-- before itself, the order is transitive, and two candidates that are neither before the other have
-- the same paths.
pub candidate_order-strict :
    (a b c : Candidate)
    → (candidate_order a a ≡ false)
      × (candidate_order a b ≡ true → candidate_order b c ≡ true → candidate_order a c ≡ true)
      × (candidate_order a b ≡ false
          → candidate_order b a ≡ false
          → (a.physical_path ≡ b.physical_path) × (a.path ≡ b.path))
candidate_order-strict a b c = (
  itself a,
  λ h h'.
      Before-candidate_order a c
        (Before-transitive a b c (candidate_order-Before a b h) (candidate_order-Before b c h')),
  neither-equal a b,
)
  where
    itself : (a : Candidate) → candidate_order a a ≡ false
    itself a = elim (Bool-cases (candidate_order a a)) [
      | inr e ↦ e
      | inl e ↦ ground (
        arith,
        candidate_order-Before a a e,
        less-irreflexive a.physical_path,
        less-irreflexive a.path,
      )
    ]

all_digits_iff : (cs : Bytes) → (all_digits cs ≡ true) ↔ All (λ c. (b'0' ≤ c) × (c ≤ b'9')) cs
all_digits_iff [] = ground arith
all_digits_iff (c ∷ cs) = ground (arith, all_digits_iff cs)

abbrev IsNumbered : Bytes → Type 0
IsNumbered name =
    (digits : Bytes) × (name ≡ codes "event" ++ digits)
    × (digits ≢ [])
    × All (λ c. (b'0' ≤ c) × (c ≤ b'9')) digits

is_event_name-IsNumbered : (name : Bytes) → is_event_name name ≡ true → IsNumbered name
unfolding is_event_name
is_event_name-IsNumbered (a ∷ b ∷ c ∷ d ∷ e ∷ f ∷ digits) h =
    let same = (equal_iff (a ∷ b ∷ c ∷ d ∷ e ∷ []) (codes "event")).0 (ground (arith, h)) in
    (
      f ∷ digits,
      ap (λ t. t ++ f ∷ digits) same,
      λ n. ground (arith, n),
      (all_digits_iff (f ∷ digits)).0 (ground (arith, h)),
    )
is_event_name-IsNumbered [] h = absurd (ground (arith, h))
is_event_name-IsNumbered (a ∷ []) h = absurd (ground (arith, h))
is_event_name-IsNumbered (a ∷ b ∷ []) h = absurd (ground (arith, h))
is_event_name-IsNumbered (a ∷ b ∷ c ∷ []) h = absurd (ground (arith, h))
is_event_name-IsNumbered (a ∷ b ∷ c ∷ d ∷ []) h = absurd (ground (arith, h))
is_event_name-IsNumbered (a ∷ b ∷ c ∷ d ∷ e ∷ []) h = absurd (ground (arith, h))

numbered_accepted :
    (digits : Bytes)
    → digits ≢ []
    → All (λ c. (b'0' ≤ c) × (c ≤ b'9')) digits
    → is_event_name (codes "event" ++ digits) ≡ true
unfolding is_event_name
numbered_accepted [] n all = absurd (n refl)
numbered_accepted (c ∷ cs) n all =
    rw ((equal_iff (codes "event") (codes "event")).1 refl) ((all_digits_iff (c ∷ cs)).1 all)

-- The names that are opened are `event` and a decimal number of at least one digit.
pub is_event_name_iff :
    (name : Bytes)
    → (is_event_name name ≡ true) ↔ (
        (digits : Bytes) × (name ≡ codes "event" ++ digits)
        × (digits ≢ [])
        × All (λ c. (b'0' ≤ c) × (c ≤ b'9')) digits)
is_event_name_iff name =
    (is_event_name-IsNumbered name, λ (digits, e, n, all). rw e (numbered_accepted digits n all))
