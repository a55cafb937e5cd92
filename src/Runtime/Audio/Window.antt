-- ===== src/Runtime/Audio/Window.antt =====
-- What the queue holds, and where each element of it lies in the buffer.
use nes_deck.Prelude.{
  ℕ, ◌+◌, ◌-◌, ◌^◌, ◌≤◌, ◌<◌, ◌≡◌, refl, ◌⊎◌, inl, inr, arith, Bool-cases, ltb→lt, ◌++◌, ltb,
  length, length-append, length-take, length-drop, take, drop, get_or,
}
use nes_deck.Runtime.Audio.{Queue, Samples}
use nes_deck.Prelude.Elements.{at_index, get_or-take, get_or-drop, get_or-append}

pub record IsValid (q : Queue) : Type 0 where
  pub head_in : q.head < length q.buffer
  pub size_in : q.size ≤ length q.buffer
  pub counted : q.dropped < 2 ^ 64

-- What the queue holds, oldest first.
abbrev pub contents : Queue → Samples
contents q = take q.size (drop q.head q.buffer ++ q.buffer)

pub length-contents : (q : Queue) → IsValid q → length (contents q) ≡ q.size
length-contents q v = omega (
  arith,
  length-take q.size (drop q.head q.buffer ++ q.buffer),
  length-append (drop q.head q.buffer) q.buffer,
  length-drop q.head q.buffer,
  v.size_in,
)

-- Where the element `i` of the queue lies.
pub place_of :
    (q : Queue) (i : ℕ)
    → (j : ℕ) × (((j ≡ q.head + i) × (j < length q.buffer)) ⊎ (j + length q.buffer ≡ q.head + i))
place_of q i = elim (Bool-cases (ltb (q.head + i) (length q.buffer))) [
  | inl l ↦ (q.head + i, inl (refl, ltb→lt _ _ l))
  | inr l ↦ (q.head + i - length q.buffer, inr (ground (arith, l)))
]

pub contents-straight :
    (q : Queue) (i : ℕ)
    → i < q.size
    → q.head + i < length q.buffer
    → get_or (contents q) i 0 ≡ get_or q.buffer (q.head + i) 0
contents-straight q i h l = ground (
  arith,
  get_or-take q.size (drop q.head q.buffer ++ q.buffer) i,
  get_or-append (drop q.head q.buffer) q.buffer i,
  get_or-drop q.head q.buffer i,
  length-drop q.head q.buffer,
)

pub contents-wrapped :
    (q : Queue) (i j : ℕ)
    → q.head < length q.buffer
    → i < q.size
    → j + length q.buffer ≡ q.head + i
    → get_or (contents q) i 0 ≡ get_or q.buffer j 0
contents-wrapped q i j v h e = ground (
  arith,
  get_or-take q.size (drop q.head q.buffer ++ q.buffer) i,
  get_or-append (drop q.head q.buffer) q.buffer i,
  length-drop q.head q.buffer,
  at_index q.buffer (i - length (drop q.head q.buffer)) j,
)
