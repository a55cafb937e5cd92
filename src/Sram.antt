-- ===== src/Sram.antt =====
-- src/nes_sram.h: the run-length code in which a cartridge's save memory is stored. The first
-- byte of an encoded image is the tag; the tag, a value and a count less one stand for a run.
-- A buffer is the list of its bytes, an index into one is the list that is left, and the result
-- says what the function returned. Pointers are not modelled but for the test on null.
pub mod Tag
pub mod Runs
pub mod Size
pub mod RoundTrip
use nes_deck.Prelude.{
  ℕ, zero, suc, ◌+◌, ◌-◌, ◌*◌, ◌%◌, ◌^◌, Bool, true, false, ◌&&◌, ◌||◌, not, List, [], ◌∷◌, ◌++◌,
  Option, none, some, ltb, leb, ◌==◌, if◌then◌else◌, length, get_or, drop, replicate, Bytes, set,
}

-- `NesSramMaximumEncodedSize`; on a `size_t` of `w` bits the product wraps.
unfoldable pub maximum_encoded_size : ℕ → ℕ → ℕ
maximum_encoded_size w input_size = (input_size * 3 + 1) % 2 ^ w

-- `++frequency[input[index]]` for every byte of the input.
unfoldable pub tally : List ℕ → Bytes → List ℕ
tally frequency [] = frequency
tally frequency (x ∷ xs) = tally (set frequency x (get_or frequency x 0 + 1)) xs

-- The loop over `value`, with the rounds that are left.
unfoldable pub pick_tag : List ℕ → ℕ → ℕ → ℕ → ℕ
pick_tag frequency zero value tag = tag
pick_tag frequency (suc rounds) value tag =
    pick_tag frequency rounds (value + 1)
      (if ltb (get_or frequency value 0) (get_or frequency tag 0) then value % 2 ^ 8 else tag)

unfoldable pub choose_tag : Bytes → ℕ
unfolding tally pick_tag
choose_tag input = pick_tag (tally (replicate 256 0) input) 255 1 0

-- The inner `while` of the encoder: `n` bytes equal to `value` have been passed.
unfoldable pub run_length : ℕ → ℕ → Bytes → ℕ
run_length value n [] = n
run_length value n (x ∷ xs) =
    let more = run_length value (n + 1) xs in if ltb n 256 && x == value then more else n

-- What the function returned, with the bytes that it has put into the output buffer by then, also
-- where it returned false. `stalled` is the model's own: the loop had no fuel left.
pub data Encoded : Type 0 where
  stalled : Encoded
  refused written : Bytes → Encoded

-- What one turn of the loop appends, if it fits in the room that is left.
unfoldable pub put_run : ℕ → ℕ → ℕ → ℕ → Option Bytes
put_run room tag value n =
    if leb 4 n || value == tag
    then (if ltb room 3 then none else some (tag ∷ value ∷ ((n - 1) % 2 ^ 8) ∷ []))
    else (if ltb room n then none else some (replicate n value))

unfoldable pub encode_loop : ℕ → ℕ → ℕ → Bytes → Bytes → Encoded
encode_loop fuel capacity tag [] out = written out
encode_loop zero capacity tag (value ∷ rest) out = stalled
encode_loop (suc fuel) capacity tag (value ∷ rest) out =
    let n = run_length value 1 rest in
    elim (put_run (capacity - length out) tag value n) [
      | none ↦ refused out
      | some packet ↦ encode_loop fuel capacity tag (drop n (value ∷ rest)) (out ++ packet)
    ]

-- `NesSramEncode`; `null` says that one of the pointers is null.
unfoldable pub encode : Bool → Bytes → ℕ → Encoded
encode null input capacity =
    if null || length input == 0 || capacity == 0
    then refused []
    else let tag = choose_tag input in encode_loop (length input) capacity tag input (tag ∷ [])

-- The loop of `NesSramDecode`; `none` where the function returns false.
unfoldable pub decode_loop : ℕ → ℕ → Bytes → Bytes → Option Bytes
decode_loop tag size [] out = if ltb (length out) size then none else some out
decode_loop tag size (value ∷ []) out =
    if not (ltb (length out) size)
    then some out
    else if not (value == tag)
    then decode_loop tag size [] (out ++ value ∷ [])
    else none
decode_loop tag size (value ∷ repeated ∷ []) out =
    let plain = decode_loop tag size (repeated ∷ []) (out ++ value ∷ []) in
    if not (ltb (length out) size) then some out else if not (value == tag) then plain else none
decode_loop tag size (value ∷ repeated ∷ count ∷ rest) out =
    let plain = decode_loop tag size (repeated ∷ count ∷ rest) (out ++ value ∷ []) in
    let expanded = decode_loop tag size rest (out ++ replicate (count + 1) repeated) in
    if not (ltb (length out) size)
    then some out
    else if not (value == tag)
    then plain
    else if ltb (size - length out) (count + 1)
    then none
    else expanded

-- `NesSramDecode` of `output_size` bytes.
unfoldable pub decode : Bool → Bytes → ℕ → Option Bytes
decode null [] output_size = none
decode null (tag ∷ rest) output_size =
    if null || output_size == 0 then none else decode_loop tag output_size rest []
