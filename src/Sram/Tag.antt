-- ===== src/Sram/Tag.antt =====
-- The tag is a byte value that the input uses least, and the size of what the decoder returns.
use nes_deck.Prelude.{
  ℕ, zero, suc, ◌+◌, ◌%◌, ◌^◌, ◌≤◌, ◌<◌, ◌≡◌, refl, List, [], ◌∷◌, ◌++◌, some, arith, ◌⊎◌, inl, inr,
  Bool, Bool-cases, ◌==◌, ltb, if◌then◌else◌, length, get_or, set, length-append, length-set,
  length-replicate, replicate, Bytes,
}
use nes_deck.Sram.{tally, pick_tag, choose_tag, decode_loop, decode}

-- How often a value occurs.
pub count : ℕ → Bytes → ℕ
count v [] = 0
count v (x ∷ xs) = (if x == v then 1 else 0) + count v xs

get_or-set :
    (xs : List ℕ) (i j v : ℕ)
    → j < length xs
    → get_or (set xs i v) j 0 ≡ (if i == j then v else get_or xs j 0)
get_or-set [] i j v h = absurd (omega arith)
get_or-set (x ∷ xs) zero zero v h = refl
get_or-set (x ∷ xs) zero (suc j) v h = ground arith
get_or-set (x ∷ xs) (suc i) zero v h = ground arith
get_or-set (x ∷ xs) (suc i) (suc j) v h = ground (arith, get_or-set xs i j v)

get_or-replicate : (n i : ℕ) → get_or {A = ℕ} (replicate n 0) i 0 ≡ 0
get_or-replicate zero i = refl
get_or-replicate (suc n) zero = refl
get_or-replicate (suc n) (suc i) = get_or-replicate n i

get_or-tally :
    (frequency : List ℕ) (input : Bytes) (v : ℕ)
    → v < length frequency
    → get_or (tally frequency input) v 0 ≡ get_or frequency v 0 + count v input
unfolding tally count
get_or-tally frequency [] v h = omega arith
get_or-tally frequency (x ∷ xs) v h =
    let n = get_or frequency x 0 + 1 in
    ground (
      arith,
      get_or-tally (set frequency x n) xs v,
      length-set frequency x n,
      get_or-set frequency x v n,
    )

abbrev better : List ℕ → ℕ → ℕ → ℕ
better frequency value tag =
    if ltb (get_or frequency value 0) (get_or frequency tag 0) then value % 2 ^ 8 else tag

better-least :
    (frequency : List ℕ) (value tag : ℕ)
    → value < 256
    → ((v : ℕ) → v < value → get_or frequency tag 0 ≤ get_or frequency v 0)
    → (v : ℕ) → v < value + 1
    → get_or frequency (better frequency value tag) 0 ≤ get_or frequency v 0
better-least frequency value tag small least v h =
    elim (Bool-cases (ltb (get_or frequency value 0) (get_or frequency tag 0))) [
      | inl less ↦
          let e : value % 2 ^ 8 ≡ value = omega arith in
          rw less (rw e (ground (arith, least v, below v value)))
      | inr more ↦ rw more (ground (arith, least v, below v value))
    ]
  where
    below : (v value : ℕ) → v < value + 1 → (v < value) ⊎ (v ≡ value)
    below v value h = grind arith

pick_tag-least :
    (frequency : List ℕ) (rounds value tag : ℕ)
    → value + rounds ≤ 256
    → tag < 256
    → ((v : ℕ) → v < value → get_or frequency tag 0 ≤ get_or frequency v 0)
    → (pick_tag frequency rounds value tag < 256)
      × ((v : ℕ)
          → v < value + rounds
          → get_or frequency (pick_tag frequency rounds value tag) 0 ≤ get_or frequency v 0)
unfolding pick_tag
pick_tag-least frequency zero value tag fits small least = (small, λ v h. least v (omega arith))
pick_tag-least frequency (suc rounds) value tag fits small least =
    let (inside, lower) =
      pick_tag-least frequency rounds (value + 1) (better frequency value tag) (omega arith)
        (ground arith) (better-least frequency value tag (omega arith) least) in
    (inside, λ v h. lower v (omega arith))

-- The tag is a byte, and no byte value occurs in the input less often.
pub choose_tag-least :
    (input : Bytes) (v : ℕ)
    → v < 256
    → (choose_tag input < 256) × (count (choose_tag input) input ≤ count v input)
unfolding choose_tag
choose_tag-least input v h =
    let zeros : List ℕ = replicate 256 0 in
    let f = tally zeros input in
    let (small, least) =
      pick_tag-least f 255 1 0 (omega arith) (omega arith)
        (λ w lt. let e : w ≡ 0 = omega arith in rw e (omega arith)) in
    let t = pick_tag f 255 1 0 in
    (
      small,
      omega (
        arith,
        least v (omega arith),
        get_or-tally zeros input v (omega arith),
        get_or-tally zeros input t (omega arith),
        get_or-replicate 256 v,
        get_or-replicate 256 t,
      ),
    )

decode_loop-length :
    (tag size : ℕ) (rest out o : Bytes)
    → length out ≤ size
    → decode_loop tag size rest out ≡ some o
    → length o ≡ size
unfolding decode_loop
decode_loop-length tag size [] out o fits h = ground arith
decode_loop-length tag size (value ∷ []) out o fits h =
    ground
      (arith, decode_loop-length tag size [] (out ++ value ∷ []) o, length-append out (value ∷ []))
decode_loop-length tag size (value ∷ repeated ∷ []) out o fits h = ground (
  arith,
  decode_loop-length tag size (repeated ∷ []) (out ++ value ∷ []) o,
  length-append out (value ∷ []),
)
decode_loop-length tag size (value ∷ repeated ∷ n ∷ rest) out o fits h = ground (
  arith,
  decode_loop-length tag size (repeated ∷ n ∷ rest) (out ++ value ∷ []) o,
  decode_loop-length tag size rest (out ++ replicate (n + 1) repeated) o,
  length-append out (value ∷ []),
  length-append out (replicate (n + 1) repeated),
  length-replicate (n + 1) repeated,
)

-- A successful call fills the output buffer exactly, whatever the input.
pub length-decode :
    (null : Bool) (input : Bytes) (output_size : ℕ) {out : Bytes}
    → decode null input output_size ≡ some out
    → length out ≡ output_size
unfolding decode
length-decode null [] output_size h = cc
length-decode null (tag ∷ rest) output_size {out} h =
    ground (arith, decode_loop-length tag output_size rest [] out)
