-- ===== src/Catalog/Entry/Slug.antt =====
-- Which ids `valid_id` accepts.
use nes_deck.Prelude.{
  ℕ, ◌≤◌, ◌≡◌, refl, ◌↔◌, inl, inr, arith, true, false, Bool-cases, [], ◌∷◌, Option, none, some,
  length, Bytes,
}
use nes_deck.Catalog.Entry.{is_alnum, is_empty, refuses_character, id_loop, valid_id}

-- Lower-case letters and digits, and between two of them at most one dash.
pub data IsSlug : Bytes → Type 0 where
  one : (c : ℕ) → is_alnum c ≡ true → IsSlug (c ∷ [])
  more : (c : ℕ) {cs : Bytes} → is_alnum c ≡ true → IsSlug cs → IsSlug (c ∷ cs)
  dash : (c d : ℕ) {cs : Bytes} → is_alnum c ≡ true → d ≡ b'-' → IsSlug cs → IsSlug (c ∷ d ∷ cs)

-- One turn of the loop that does not refuse.
id_loop_turn :
    (previous : Option ℕ) (c : ℕ) (cs : Bytes)
    → id_loop previous (c ∷ cs) ≡ true
    → (refuses_character previous c cs ≡ false) × (id_loop (some c) cs ≡ true)
unfolding id_loop
id_loop_turn previous c cs h = (ground arith, ground arith)

id_loop-IsSlug :
    (previous : Option ℕ) (c : ℕ) (cs : Bytes)
    → is_alnum c ≡ true
    → id_loop previous (c ∷ cs) ≡ true
    → IsSlug (c ∷ cs)
id_loop-IsSlug previous c [] a h = one c a
id_loop-IsSlug previous c (d ∷ []) a h =
    let (ok, h') = id_loop_turn previous c (d ∷ []) h in
    let (ok', h'') = id_loop_turn (some c) d [] h' in
    more c a (one d (unfold refuses_character in ground arith))
id_loop-IsSlug previous c (d ∷ e ∷ es) a h =
    let (ok, h') = id_loop_turn previous c (d ∷ e ∷ es) h in
    let (ok', h'') = id_loop_turn (some c) d (e ∷ es) h' in
    elim (Bool-cases (is_alnum d)) [
      | inl b ↦ more c a (id_loop-IsSlug (some c) d (e ∷ es) b h')
      | inr b ↦
          let is : d ≡ b'-' = unfold refuses_character in ground arith in
          let (ok'', h''') = id_loop_turn (some d) e es h'' in
          dash c d a is (id_loop-IsSlug (some d) e es (after_dash d e es is ok'') h'')
    ]
  where
    after_dash :
        (d e : ℕ) (es : Bytes)
        → d ≡ b'-'
        → refuses_character (some d) e es ≡ false
        → is_alnum e ≡ true
    after_dash d e es is h = unfold refuses_character in ground arith

IsSlug-is_empty : {id : Bytes} → IsSlug id → is_empty id ≡ false
IsSlug-is_empty (one c a) = refl
IsSlug-is_empty (more c a s) = refl
IsSlug-is_empty (dash c d a is s) = refl

-- A letter or digit is taken wherever it stands, and a dash between others.
takes-alnum :
    (previous : Option ℕ) (c : ℕ) (cs : Bytes)
    → is_alnum c ≡ true
    → refuses_character previous c cs ≡ false
unfolding refuses_character
takes-alnum none c cs a = ground arith
takes-alnum (some p) c cs a = ground arith

takes-dash :
    (c d : ℕ) (cs : Bytes)
    → is_alnum c ≡ true
    → d ≡ b'-'
    → is_empty cs ≡ false
    → refuses_character (some c) d cs ≡ false
unfolding refuses_character
takes-dash c d cs a is e = ground arith

id_loop_more :
    (previous : Option ℕ) (c : ℕ) (cs : Bytes)
    → refuses_character previous c cs ≡ false
    → id_loop (some c) cs ≡ true
    → id_loop previous (c ∷ cs) ≡ true
unfolding id_loop
id_loop_more previous c cs ok h = ground arith

IsSlug-id_loop : {id : Bytes} (previous : Option ℕ) → IsSlug id → id_loop previous id ≡ true
IsSlug-id_loop previous (one c a) =
    id_loop_more previous c [] (takes-alnum previous c [] a) (unfold id_loop in refl)
IsSlug-id_loop previous (more c {cs = cs} a s) =
    id_loop_more previous c cs (takes-alnum previous c cs a) (IsSlug-id_loop (some c) s)
IsSlug-id_loop previous (dash c d {cs = cs} a is s) =
    id_loop_more previous c (d ∷ cs) (takes-alnum previous c (d ∷ cs) a) (
      id_loop_more (some c) d cs (takes-dash c d cs a is (IsSlug-is_empty s))
        (IsSlug-id_loop (some d) s))

-- An id is accepted exactly if it has at most 48 characters and is a slug: lower-case letters and
-- digits, with at most one dash between two of them and none at the ends.
pub valid_id_iff : (id : Bytes) → (valid_id id ≡ true) ↔ ((length id ≤ 48) × IsSlug id)
unfolding valid_id
valid_id_iff [] =
    (λ h. absurd (ground (arith, h)), λ (_, s). absurd (ground (arith, IsSlug-is_empty s)))
valid_id_iff (c ∷ cs) = (
  λ h.
      let run : id_loop none (c ∷ cs) ≡ true = ground (arith, h) in
      let (ok, _) = id_loop_turn none c cs run in
      (
        ground (arith, h),
        id_loop-IsSlug none c cs (unfold refuses_character in ground (arith, ok)) run,
      ),
  λ (short, s). ground (arith, short, IsSlug-id_loop none s),
)
