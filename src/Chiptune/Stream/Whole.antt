-- ===== src/Chiptune/Stream/Whole.antt =====
-- Reads of the stream that follow one another return its bytes in order.
use nes_deck.Prelude.{
  ℕ, ◌+◌, ◌-◌, ◌*◌, ◌/◌, ◌^◌, ◌≤◌, ◌<◌, ◌≡◌, refl, sym, ap, ◌∙◌, min, arith, ◌⊎◌, inl, inr, true,
  false, Bool-cases, ◌||◌, List, [], ◌∷◌, ◌++◌, append_assoc, ltb, leb, ◌==◌, if◌then◌else◌, Bytes,
  length, take, drop, take-append-drop, length-take, length-drop,
}
use nes_deck.Prelude.Elements.{drop-drop}
use nes_deck.Chiptune.Stream.{VorbisMemoryStream, vorbis_memory_read}
use native.Mathlib.Nat.{mul-div-le, mul_comm, lt-mul-div-succ, mul-add, mul-div_cancel_left}

-- What a call has read: the bytes that were next, whole items, and as many as were asked for unless
-- less than an item is left.
pub record Reads (size count : ℕ) (before : VorbisMemoryStream) (items : ℕ) (copied : Bytes)
    (after : VorbisMemoryStream) : Type 0 where
  pub same_bytes : after.bytes ≡ before.bytes
  pub next : copied ++ drop after.offset before.bytes ≡ drop before.offset before.bytes
  pub whole : length copied ≡ items * size
  pub inside : after.offset ≤ length before.bytes
  pub full : (items ≡ count) ⊎ (length before.bytes - after.offset < size)

-- The items that fit.
fitting : (size asked room : ℕ) → 1 ≤ size → min asked room / size * size ≤ min asked room
fitting size asked room low =
    omega (arith, mul-div-le (min asked room) size, mul_comm size (min asked room / size))

-- The items of a call, where the request is not refused.
items_of : ℕ → ℕ → VorbisMemoryStream → ℕ
items_of size count s = min (size * count) (length s.bytes - s.offset) / size

advance :
    (s : VorbisMemoryStream) (amount : ℕ)
    → (if ltb 0 amount then record s { offset = s.offset + amount } else s)
      ≡ record s { offset = s.offset + amount }
advance s amount = elim (Bool-cases (ltb 0 amount)) [
  | inl e ↦ rw e refl
  | inr e ↦
      let still : s.offset ≡ s.offset + amount = ground (arith, e) in
      rw e (ap (λ o. record s { offset = o }) still)
]

full_or_end :
    (size count room : ℕ)
    → 1 ≤ size
    → (min (size * count) room / size ≡ count)
      ⊎ (room - min (size * count) room / size * size < size)
full_or_end size count room low = elim (Bool-cases (leb (size * count) room)) [
  | inl enough ↦
      let e : min (size * count) room ≡ size * count = ground (arith, enough) in
      inl (ap (λ n. n / size) e ∙ mul-div_cancel_left count low)
  | inr short ↦
      let e : min (size * count) room ≡ room = ground (arith, short) in
      let same = ap (λ n. n / size * size) e in
      let past : room < size * (room / size + 1) = lt-mul-div-succ room low in
      inr (omega (arith, same, past, mul-add size (room / size) 1, mul_comm size (room / size)))
]

read-accepted :
    (w size count : ℕ) (s : VorbisMemoryStream)
    → 1 ≤ size
    → 1 ≤ count
    → count ≤ (2 ^ w - 1) / size
    → vorbis_memory_read w size count s ≡ (
      items_of size count s,
      take (items_of size count s * size) (drop s.offset s.bytes),
      record s { offset = s.offset + items_of size count s * size },
    )
unfolding vorbis_memory_read items_of
read-accepted w size count s low low' fits =
    let taken : (size == 0 || count == 0 || ltb ((2 ^ w - 1) / size) count) ≡ false =
      ground (arith, low, low', fits) in
    let room : (if ltb s.offset (length s.bytes) then length s.bytes - s.offset else 0)
        ≡ length s.bytes - s.offset =
      ground arith in
    rw (taken, room, advance s (min (size * count) (length s.bytes - s.offset) / size * size)) refl

read-Reads :
    (size count : ℕ) (s : VorbisMemoryStream)
    → 1 ≤ size
    → s.offset ≤ length s.bytes
    → let items = items_of size count s in
      Reads size count s items
        (take (items * size) (drop s.offset s.bytes))
        (record s { offset = s.offset + items * size })
unfolding items_of
read-Reads size count s low inside =
    let room = length s.bytes - s.offset in
    let items = min (size * count) room / size in
    let fits = fitting size (size * count) room low in
    record {
      same_bytes = refl;
      next =
          ap (λ rest. take (items * size) (drop s.offset s.bytes) ++ rest)
            (sym (drop-drop s.offset (items * size) s.bytes))
          ∙ take-append-drop (items * size) (drop s.offset s.bytes);
      whole = omega (
        arith,
        fits,
        length-take (items * size) (drop s.offset s.bytes),
        length-drop s.offset s.bytes,
      );
      inside = omega (arith, fits);
      full = elim (full_or_end size count room low) [
        | inl all ↦ inl all
        | inr end ↦ inr (omega (arith, end))
      ];
    }

-- One request, taken or refused.
call-Reads :
    (w size count : ℕ) (s : VorbisMemoryStream)
    → 1 ≤ size
    → 1 ≤ count
    → count ≤ (2 ^ w - 1) / size
    → s.offset ≤ length s.bytes
    → let (items, copied, s') = vorbis_memory_read w size count s in
      Reads size count s items copied s'
call-Reads w size count s low low' fits inside =
    rw (read-accepted w size count s low low' fits) (read-Reads size count s low inside)

-- What any request leaves.
record Follows (before : VorbisMemoryStream) (copied : Bytes) (after : VorbisMemoryStream)
    : Type 0 where
  kept_bytes : after.bytes ≡ before.bytes
  next_bytes : copied ++ drop after.offset before.bytes ≡ drop before.offset before.bytes
  still_inside : after.offset ≤ length after.bytes

read-refused :
    (w size count : ℕ) (s : VorbisMemoryStream)
    → (size == 0 || count == 0 || ltb ((2 ^ w - 1) / size) count) ≡ true
    → vorbis_memory_read w size count s ≡ (0, [], s)
unfolding vorbis_memory_read
read-refused w size count s e = rw e refl

call-Follows :
    (w size count : ℕ) (s : VorbisMemoryStream)
    → s.offset ≤ length s.bytes
    → let (items, copied, s') = vorbis_memory_read w size count s in Follows s copied s'
call-Follows w size count s inside =
    elim (Bool-cases (size == 0 || count == 0 || ltb ((2 ^ w - 1) / size) count)) [
      | inl e ↦
          rw (read-refused w size count s e)
            (record { kept_bytes = refl; next_bytes = refl; still_inside = inside })
      | inr e ↦
          let r =
            call-Reads w size count s (ground (arith, e)) (ground (arith, e)) (ground (arith, e))
              inside in
          record {
            kept_bytes = r.same_bytes;
            next_bytes = r.next;
            still_inside = omega (arith, r.inside, ap length r.same_bytes);
          }
    ]

-- The bytes of all requests, and the stream after the last.
unfoldable pub read_all : ℕ → List (ℕ × ℕ) → VorbisMemoryStream → Bytes × VorbisMemoryStream
read_all w [] s = ([], s)
read_all w ((size, count) ∷ requests) s =
    let (items, copied, s1) = vorbis_memory_read w size count s in
    let (rest, s2) = read_all w requests s1 in (copied ++ rest, s2)

read_all-Follows :
    (w : ℕ) (requests : List (ℕ × ℕ)) (s : VorbisMemoryStream)
    → s.offset ≤ length s.bytes
    → Follows s (read_all w requests s).0 (read_all w requests s).1
unfolding read_all
read_all-Follows w [] s inside = record {
  kept_bytes = refl;
  next_bytes = refl;
  still_inside = inside;
}
read_all-Follows w ((size, count) ∷ requests) s inside =
    let first = call-Follows w size count s inside in
    let (items, copied, s1) = vorbis_memory_read w size count s in
    let rest = read_all-Follows w requests s1 first.still_inside in
    record {
      kept_bytes = rest.kept_bytes ∙ first.kept_bytes;
      next_bytes =
          append_assoc copied _ _
          ∙ ap
              (λ bytes.
                copied
                ++ ((read_all w requests s1).0 ++ drop (read_all w requests s1).1.offset bytes))
              (sym first.kept_bytes)
          ∙ ap (λ more. copied ++ more) (rest.next_bytes ∙ ap (drop s1.offset) first.kept_bytes)
          ∙ first.next_bytes;
      still_inside = rest.still_inside;
    }

-- A stream at the beginning of its bytes.
abbrev pub opened : Bytes → VorbisMemoryStream
opened bytes = record { bytes = bytes; offset = 0 }

-- After any requests from the beginning, what they have copied with what is left of the bytes is the
-- bytes. A further request whose product of size and count is not 0 and fits a `size_t` then copies whole
-- items of what is left, and as many as it asks for unless less than one is left after it.
pub read_all-Reads :
    (w : ℕ) (bytes : Bytes) (requests : List (ℕ × ℕ)) (size count : ℕ)
    → 1 ≤ size
    → 1 ≤ count
    → count ≤ (2 ^ w - 1) / size
    → let (copied, s) = read_all w requests (opened bytes) in
      let (items, more, s') = vorbis_memory_read w size count s in
      (copied ++ drop s.offset bytes ≡ bytes) × Reads size count s items more s'
read_all-Reads w bytes requests size count low low' fits =
    let all = read_all-Follows w requests (opened bytes) (omega arith) in
    (all.next_bytes, call-Reads w size count _ low low' fits all.still_inside)
