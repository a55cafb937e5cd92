-- ===== src/Menu/Guard/Spaced.antt =====
-- What the guard of src/deck_menu.cpp lets through: its state against the edges accepted so far.
use nes_deck.Prelude.{
  ℕ, ◌+◌, ◌≤◌, ◌≡◌, refl, sym, ap, ◌∙◌, arith, inl, inr, true, false, Bool-cases, leb→le, not, ◌||◌,
  List, [], ◌∷◌, ◌++◌, some, leb, if◌then◌else◌, length, length-append, drop,
}
use nes_deck.Menu.Guard.{
  Guard, fresh, erase_old, accept_edge, quiet_since, recover_if_quiet, Event, edge, check, accepted,
  Ordered, IsSpaced,
}
use nes_deck.Menu.Guard.Erased.{
  drop_append_left, old_element, Past-append, Remembers-erased, IsSpaced-append, Past, Remembers,
}

record Holds (clock : ℕ) (g : Guard) (out : List ℕ) : Type 0 where
  spaced : IsSpaced out
  past : Past (length out) clock out
  open_state : g.suspended ≡ false → Remembers clock g out
  shut_state :
      g.suspended ≡ true → (last : ℕ) × (g.last_edge_at ≡ some last) × Past (length out) last out

abbrev times_of : ℕ → Guard → List ℕ
times_of now g = erase_old now g.edge_times ++ now ∷ []

accept_shut :
    (now : ℕ) (g : Guard)
    → g.suspended ≡ true
    → accept_edge now g ≡ (false, record g { last_edge_at = some now })
unfolding accept_edge
accept_shut now g e = ground (arith, e)

accept_ok :
    (now : ℕ) (g : Guard)
    → g.suspended ≡ false
    → leb (length (times_of now g)) 12 ≡ true
    → accept_edge now g ≡ (true, record g { edge_times = times_of now g; last_edge_at = some now })
unfolding accept_edge
accept_ok now g e f = ground (arith, e, f)

accept_full :
    (now : ℕ) (g : Guard)
    → g.suspended ≡ false
    → leb (length (times_of now g)) 12 ≡ false
    → accept_edge now g
      ≡ (false, record { edge_times = times_of now g; suspended = true; last_edge_at = some now })
unfolding accept_edge
accept_full now g e f = ground (arith, e, f)

later :
    (clock now : ℕ) (out : List ℕ)
    → clock ≤ now
    → Past (length out) clock out
    → Past (length out) now out
later clock now out le past i h = omega (arith, past i h)

accept_edge-Holds :
    (clock now : ℕ) (g : Guard) (out : List ℕ)
    → clock ≤ now
    → Holds clock g out
    → let (ok, g') = accept_edge now g in Holds now g' (if ok then out ++ now ∷ [] else out)
accept_edge-Holds clock now g out le h = elim (Bool-cases g.suspended) [
  | inl shut ↦ rw (accept_shut now g shut) (record {
    spaced = h.spaced;
    past = later clock now out le h.past;
    open_state = λ e. absurd (ground (arith, e, shut));
    shut_state = λ e. (now, refl, later clock now out le h.past);
  })
  | inr hears ↦
      let (m, short, same, old) = Remembers-erased clock now g out le (h.open_state hears) in
      elim (Bool-cases (leb (length (times_of now g)) 12)) [
        | inl few ↦ rw (accept_ok now g hears few) (record {
          spaced =
              IsSpaced-append out now m h.spaced short
                (omega (
                  arith,
                  ap length same,
                  leb→le _ _ few,
                  length-append (erase_old now g.edge_times) (now ∷ []),
                  length-append (drop m out) (now ∷ []),
                ))
                old;
          past = Past-append out clock now le h.past;
          open_state = λ e. record {
            forgotten = m;
            in_range = omega (arith, length-append out (now ∷ []));
            times = ap (λ t. t ++ now ∷ []) same ∙ sym (drop_append_left m out (now ∷ []) short);
            old = λ i l. omega (arith, old_element out now i (omega (arith, short)), old i l);
          };
          shut_state = λ e. absurd (ground (arith, e, hears));
        })
        | inr many ↦ rw (accept_full now g hears many) (record {
          spaced = h.spaced;
          past = later clock now out le h.past;
          open_state = λ e. absurd (ground (arith, e));
          shut_state = λ e. (now, refl, later clock now out le h.past);
        })
      ]
]

recover_no :
    (now : ℕ) (g : Guard)
    → (not g.suspended || not (quiet_since now g.last_edge_at)) ≡ true
    → recover_if_quiet now g ≡ (false, g)
unfolding recover_if_quiet
recover_no now g e = ground (arith, e)

recover_yes :
    (now : ℕ) (g : Guard)
    → (not g.suspended || not (quiet_since now g.last_edge_at)) ≡ false
    → recover_if_quiet now g ≡ (true, fresh)
unfolding recover_if_quiet
recover_yes now g e = ground (arith, e)

Remembers-later :
    (clock now : ℕ) (g : Guard) (out : List ℕ)
    → clock ≤ now
    → Remembers clock g out
    → Remembers now g out
Remembers-later clock now g out le r = record {
  forgotten = r.forgotten;
  in_range = r.in_range;
  times = r.times;
  old = λ i h. omega (arith, r.old i h);
}

drop_all : (xs : List ℕ) → [] ≡ drop (length xs) xs
drop_all [] = refl
drop_all (x ∷ xs) = drop_all xs

recover-Holds :
    (clock now : ℕ) (g : Guard) (out : List ℕ)
    → clock ≤ now
    → Holds clock g out
    → Holds now (recover_if_quiet now g).1 out
recover-Holds clock now g out le h =
    elim (Bool-cases (not g.suspended || not (quiet_since now g.last_edge_at))) [
      | inl e ↦ rw (recover_no now g e) (record {
        spaced = h.spaced;
        past = later clock now out le h.past;
        open_state = λ o. Remembers-later clock now g out le (h.open_state o);
        shut_state = h.shut_state;
      })
      | inr e ↦
          let (last, is, past) = h.shut_state (ground (arith, e)) in
          let quiet : last + 1000 ≤ now = ground (arith, e, is) in
          rw (recover_yes now g e) (record {
            spaced = h.spaced;
            past = later clock now out le h.past;
            open_state = λ o. record {
              forgotten = length out;
              in_range = omega arith;
              times = drop_all out;
              old = λ i l. omega (arith, past i l, quiet);
            };
            shut_state = λ o. absurd (ground (arith, o));
          })
    ]

accepted-Holds :
    (events : List Event) (clock : ℕ) (g : Guard) (out : List ℕ)
    → Ordered clock events
    → Holds clock g out
    → IsSpaced (accepted events g out)
unfolding accepted
accepted-Holds [] clock g out o h = h.spaced
accepted-Holds (edge t ∷ events) clock g out (le, o) h =
    accepted-Holds events t _ _ o (accept_edge-Holds clock t g out le h)
accepted-Holds (check t ∷ events) clock g out (le, o) h =
    accepted-Holds events t _ _ o (recover-Holds clock t g out le h)

-- However edges and checks follow one another, on a clock that does not run back: of any thirteen
-- edges in a row that the guard accepts, the last is a second or more after the first.
pub accepted-IsSpaced :
    (events : List Event) → Ordered 0 events → IsSpaced (accepted events fresh [])
accepted-IsSpaced events o = accepted-Holds events 0 fresh [] o (record {
  spaced = λ i h. absurd (omega arith);
  past = λ i h. absurd (omega arith);
  open_state = λ e. record {
    forgotten = 0;
    in_range = omega arith;
    times = refl;
    old = λ i h. absurd (omega arith);
  };
  shut_state = λ e. absurd (ground (arith, e));
})
