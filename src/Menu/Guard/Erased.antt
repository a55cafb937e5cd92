-- ===== src/Menu/Guard/Erased.antt =====
-- The edges that the guard of src/deck_menu.cpp has forgotten, and those that it remembers.
use nes_deck.Prelude.{
  ℕ, zero, suc, ◌+◌, ◌-◌, ◌≤◌, ◌<◌, ◌≡◌, refl, ap, ◌∙◌, arith, inl, inr, Bool-cases, ltb→lt, List,
  [], ◌∷◌, ◌++◌, ltb, leb, length, length-append, length-drop, get_or, drop,
}
use nes_deck.Prelude.Elements.{drop-drop, get_or-append, get_or-drop, at_index}
use nes_deck.Menu.Guard.{Guard, erase_old, IsSpaced}

abbrev pub Past : ℕ → ℕ → List ℕ → Type 0
Past n time out = (i : ℕ) → i < n → get_or out i 0 ≤ time

-- The edges that the guard remembers are the last that it accepted, and those that it has forgotten
-- are a second old.
pub record Remembers (clock : ℕ) (g : Guard) (out : List ℕ) : Type 0 where
  pub forgotten : ℕ
  pub in_range : forgotten ≤ length out
  pub times : g.edge_times ≡ drop forgotten out
  pub old : (i : ℕ) → i < forgotten → get_or out i 0 + 1000 ≤ clock

-- One more erased edge.
cons_old :
    (now t : ℕ) (ts : List ℕ) (k : ℕ)
    → t + 1000 ≤ now
    → ((i : ℕ) → i < k → get_or ts i 0 + 1000 ≤ now)
    → (i : ℕ) → i < suc k
    → get_or (t ∷ ts) i 0 + 1000 ≤ now
cons_old now t ts k first old zero h = first
cons_old now t ts k first old (suc i) h = old i (omega arith)

-- How many edges are erased.
erase_old-drop :
    (now : ℕ) (ts : List ℕ)
    → (k : ℕ) × (k ≤ length ts)
      × (erase_old now ts ≡ drop k ts)
      × ((i : ℕ) → i < k → get_or ts i 0 + 1000 ≤ now)
unfolding erase_old
erase_old-drop now [] = (0, omega arith, refl, λ i h. absurd (omega arith))
erase_old-drop now (t ∷ ts) = elim (Bool-cases (leb 1000 (now - t))) [
  | inr e ↦ rw e (0, omega arith, refl, λ i h. absurd (omega arith))
  | inl e ↦
      let (k, le, same, old) = erase_old-drop now ts in
      rw e (suc k, omega (arith, le), same, cons_old now t ts k (ground (arith, e)) old)
]

pub drop_append_left :
    (n : ℕ) (xs ys : List ℕ) → n ≤ length xs → drop n (xs ++ ys) ≡ drop n xs ++ ys
drop_append_left zero xs ys h = refl
drop_append_left (suc n) [] ys h = absurd (omega arith)
drop_append_left (suc n) (x ∷ xs) ys h = drop_append_left n xs ys (omega arith)

last_element : (out : List ℕ) (now : ℕ) → get_or (out ++ now ∷ []) (length out) 0 ≡ now
last_element [] now = refl
last_element (x ∷ out) now = last_element out now

pub old_element :
    (out : List ℕ) (now i : ℕ) → i < length out → get_or (out ++ now ∷ []) i 0 ≡ get_or out i 0
old_element out now i h = ground (arith, get_or-append out (now ∷ []) i)

pub Past-append :
    (out : List ℕ) (clock now : ℕ)
    → clock ≤ now
    → Past (length out) clock out
    → Past (length (out ++ now ∷ [])) now (out ++ now ∷ [])
Past-append out clock now le past i h = elim (Bool-cases (ltb i (length out))) [
  | inl l ↦ ground (arith, old_element out now i, l, past i)
  | inr l ↦
      let e : i ≡ length out = ground (arith, l, length-append out (now ∷ []), h) in
      rw e (omega (arith, last_element out now))
]

-- What the guard has forgotten once it has erased.
pub Remembers-erased :
    (clock now : ℕ) (g : Guard) (out : List ℕ)
    → clock ≤ now
    → Remembers clock g out
    → (m : ℕ) × (m ≤ length out)
      × (erase_old now g.edge_times ≡ drop m out)
      × ((i : ℕ) → i < m → get_or out i 0 + 1000 ≤ now)
Remembers-erased clock now g out le r =
    let (k, short, same, old) = erase_old-drop now g.edge_times in
    (
      r.forgotten + k,
      omega (arith, short, ap length r.times, length-drop r.forgotten out, r.in_range),
      same ∙ ap (λ t. drop k t) r.times ∙ drop-drop r.forgotten k out,
      λ i h. elim (Bool-cases (ltb i r.forgotten)) [
        | inl l ↦ omega (arith, r.old i (ltb→lt _ _ l))
        | inr l ↦
            let found : get_or g.edge_times (i - r.forgotten) 0 ≡ get_or out i 0 =
              ap (λ t. get_or t (i - r.forgotten) 0) r.times
              ∙ get_or-drop r.forgotten out (i - r.forgotten)
              ∙ at_index out (r.forgotten + (i - r.forgotten)) i (ground (arith, l)) in
            omega (arith, found, old (i - r.forgotten) (ground (arith, l)))
      ],
    )

pub IsSpaced-append :
    (out : List ℕ) (now m : ℕ)
    → IsSpaced out
    → m ≤ length out
    → length (drop m out ++ now ∷ []) ≤ 12
    → ((i : ℕ) → i < m → get_or out i 0 + 1000 ≤ now)
    → IsSpaced (out ++ now ∷ [])
IsSpaced-append out now m spaced le few old i h = elim (Bool-cases (ltb (i + 12) (length out))) [
  | inl l ↦ omega (
    arith,
    old_element out now i (ground (arith, l)),
    old_element out now (i + 12) (ltb→lt _ _ l),
    spaced i (ltb→lt _ _ l),
  )
  | inr l ↦
      let e : i + 12 ≡ length out = ground (arith, l, h, length-append out (now ∷ [])) in
      omega (
        arith,
        old_element out now i (omega (arith, e)),
        at_index (out ++ now ∷ []) (i + 12) (length out) e,
        last_element out now,
        old i (omega (arith, e, few, length-append (drop m out) (now ∷ []), length-drop m out)),
      )
]
