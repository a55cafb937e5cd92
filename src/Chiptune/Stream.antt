-- ===== src/Chiptune/Stream.antt =====
-- The callbacks by which the Vorbis decoder reads a file from memory: `vorbis_memory_read`,
-- `vorbis_memory_seek` and `vorbis_memory_tell`. A `size_t` and a `long` have `w` bits, and an
-- `ogg_int64_t` is a number or a negative one, and not the least of 64 bits. The bytes are there.
pub mod Whole
use nes_deck.Prelude.Integers.{ℤ, pos, negsuc}
use nes_deck.Prelude.{
  ℕ, zero, suc, ◌+◌, ◌-◌, ◌*◌, ◌/◌, ◌%◌, ◌^◌, ◌≤◌, ◌<◌, ◌≡◌, refl, sym, ap, ◌∙◌, min, arith, inl,
  inr, Bool, true, false, Bool-cases, not, ◌&&◌, ◌||◌, List, [], ◌∷◌, Option, none, some, ltb, leb,
  ◌==◌, ◌!=◌, if◌then◌else◌, Bytes, length, take, drop,
}

pub record VorbisMemoryStream : Type 0 where
  pub bytes : Bytes
  pub offset : ℕ

-- On a `size_t` of `w` bits: the items, the bytes that are copied for them, and the stream after the call.
unfoldable pub vorbis_memory_read : ℕ → ℕ → ℕ → VorbisMemoryStream → ℕ × Bytes × VorbisMemoryStream
vorbis_memory_read w size count stream =
    if size == 0 || count == 0 || ltb ((2 ^ w - 1) / size) count
    then (0, [], stream)
    else let available =
        if ltb stream.offset (length stream.bytes)
        then length stream.bytes - stream.offset
        else 0 in
      let complete_items = min (size * count) available / size in
      let amount = complete_items * size in
      (
        complete_items,
        take amount (drop stream.offset stream.bytes),
        if ltb 0 amount then record stream { offset = stream.offset + amount } else stream,
      )

pub data Whence : Type 0 where
  seek_set seek_cur seek_end seek_other : Whence

-- Whether a step from `base` is refused, and where it leads.
unfoldable pub step_from : ℕ → ℕ → ℤ → Option ℕ
step_from size base (pos n) =
    -- `base > size - offset` of signed numbers.
    if ltb 0 n && ltb size (base + n)
    then none
    else if ltb size (base + n)
    then none
    else some (base + n)
step_from size base (negsuc n) =
    if ltb base (suc n) then none else if ltb size (base - suc n) then none else some (base - suc n)

unfoldable pub seek_to : Option ℕ → VorbisMemoryStream → Bool × VorbisMemoryStream
seek_to none stream = (false, stream)
seek_to (some target) stream = (true, record stream { offset = target })

-- True for 0 and false for -1.
unfoldable pub vorbis_memory_seek : ℤ → Whence → VorbisMemoryStream → Bool × VorbisMemoryStream
vorbis_memory_seek offset seek_set stream =
    seek_to (step_from (length stream.bytes) 0 offset) stream
vorbis_memory_seek offset seek_cur stream =
    seek_to (step_from (length stream.bytes) stream.offset offset) stream
vorbis_memory_seek offset seek_end stream =
    seek_to (step_from (length stream.bytes) (length stream.bytes) offset) stream
vorbis_memory_seek offset seek_other stream = (false, stream)

-- `none` for -1, on a `long` of `w` bits.
unfoldable pub vorbis_memory_tell : ℕ → VorbisMemoryStream → Option ℕ
vorbis_memory_tell w stream =
    if ltb (2 ^ (w - 1) - 1) stream.offset then none else some stream.offset
