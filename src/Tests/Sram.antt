-- ===== src/Tests/Sram.antt =====
-- src/nes_sram.h and tests/nes_sram_test.cpp.
use nes_deck.Prelude.{◌≤◌, ◌≡◌, refl, arith, false, [], ◌∷◌, some, none, length, Bytes}
use nes_deck.Sram.{
  maximum_encoded_size, choose_tag, run_length, put_run, encode_loop, encode, decode_loop, decode,
  written, refused,
}
use nes_deck.Sram.RoundTrip.{decode-encode}
use nes_deck.Sram.Size.{Fits, encode-Fits, encode-written}

abbrev memory : Bytes
memory = 7 ∷ 7 ∷ 7 ∷ 7 ∷ 7 ∷ 0 ∷ 0 ∷ 255 ∷ []

abbrev image : Bytes
image = 1 ∷ 1 ∷ 7 ∷ 4 ∷ 0 ∷ 0 ∷ 255 ∷ []

encode-memory : encode false memory 25 ≡ written image
unfolding encode choose_tag run_length put_run encode_loop
encode-memory = refl

encode_small_room : encode false memory 6 ≡ refused (1 ∷ 1 ∷ 7 ∷ 4 ∷ 0 ∷ 0 ∷ [])
unfolding encode choose_tag run_length put_run encode_loop
encode_small_room = refl

decode-image : decode false image 8 ≡ some memory
unfolding decode decode_loop
decode-image = refl

decode_truncated : decode false (1 ∷ 1 ∷ 7 ∷ []) 8 ≡ none
unfolding decode decode_loop
decode_truncated = refl

decode-encode_example : decode false image 8 ≡ some memory
decode-encode_example = decode-encode memory 25 encode-memory

encode-Fits_example : Fits 6 (encode false memory 6)
encode-Fits_example = encode-Fits false memory 6

encode-written_example :
    (out : Bytes) × (encode false memory 25 ≡ written out)
    × (length out ≤ maximum_encoded_size 64 8)
encode-written_example =
    encode-written 64 memory 25 (omega arith) (omega arith)
      (unfold maximum_encoded_size in omega arith)
