-- ===== src/Chiptune/Player.antt =====
-- `ChiptunePlayer`: which file and which track is played, and what follows. What the decoders make of
-- a file is a parameter, by its path, so a file that opens once opens again. The times, the titles
-- and the samples that are only shown are left out.
pub mod Order
pub mod Steps
pub mod Skip
pub mod Shuffle
use nes_deck.Prelude.{
  ℕ, zero, suc, ◌+◌, ◌-◌, ◌*◌, ◌/◌, ◌%◌, ◌^◌, min, max, bit_xor, Bool, true, false, not, ◌&&◌, ◌||◌,
  List, [], ◌∷◌, ltb, leb, ◌==◌, if◌then◌else◌, length, get_or, Bytes,
}

-- A file for the decoders: none can play it, or an emulator plays its tracks, of which some can be
-- started, or it is a Vorbis file of the right format, which can be rewound or not.
pub data Decoded : Type 0 where
  unplayable : Decoded
  tracks : ℕ → (ℕ → Bool) → Decoded
  vorbis : Bool → Decoded

pub data PlayerBackend : Type 0 where
  backend_none backend_gme backend_vorbis : PlayerBackend

pub data PlaybackMode : Type 0 where
  loop_all loop_one shuffle : PlaybackMode

pub record Player : Type 0 where
  pub file_index : ℕ
  pub backend : PlayerBackend
  pub track_index : ℕ
  pub track_count : ℕ
  pub paused : Bool
  pub playback_mode : PlaybackMode
  pub random_state : ℕ

abbrev pub is_gme : PlayerBackend → Bool
is_gme backend_gme = true
is_gme _ = false

-- In 32 bits.
unfoldable pub new_player : ℕ → ℕ → Player
new_player pid count = record {
  file_index = 0;
  backend = backend_none;
  track_index = 0;
  track_count = 0;
  paused = false;
  playback_mode = loop_all;
  random_state = bit_xor (bit_xor 0x9e3779b9 (pid % 2 ^ 32)) (count % 2 ^ 32);
}

unfoldable pub toggle_pause : Player → Player
toggle_pause p = record p { paused = not p.paused }

abbrev next_mode : PlaybackMode → PlaybackMode
next_mode loop_all = loop_one
next_mode loop_one = shuffle
next_mode shuffle = loop_all

unfoldable pub cycle_playback_mode : Player → Player
cycle_playback_mode p = record p { playback_mode = next_mode p.playback_mode }

-- The three shifts, in 32 bits.
abbrev xorshift : ℕ → ℕ
xorshift seed =
    let a = bit_xor seed (seed * 2 ^ 13 % 2 ^ 32) in
    let b = bit_xor a (a / 2 ^ 17) in bit_xor b (b * 2 ^ 5 % 2 ^ 32)

unfoldable pub next_random : Player → ℕ × Player
next_random p =
    let r = xorshift (if p.random_state == 0 then 0x6d2b79f5 else p.random_state) in
    (r, record p { random_state = r })

unfoldable pub close_track : Player → Player
close_track p = record p { backend = backend_none; track_count = 0; track_index = 0 }

module _ (files : List Bytes) (decode : Bytes → Decoded) where
  abbrev pub decoded : ℕ → Decoded
  decoded index = decode (get_or files index [])

  -- Whether the emulator of a file starts a track.
  abbrev starts : Decoded → ℕ → Bool
  starts (tracks count start) track = start track
  starts _ track = false

  unfoldable pub start_track : ℕ → Player → Bool × Player
  start_track track p =
      if not (is_gme p.backend) || leb p.track_count track
      then (false, p)
      else if starts (decoded p.file_index) track
      then (true, record p { track_index = track; paused = false })
      else (false, p)

  -- A file that its decoder has taken, or not.
  unfoldable pub open_decoded : ℕ → ℕ → Decoded → Player → Bool × Player
  open_decoded index track unplayable p = (false, p)
  open_decoded index track (tracks count start) p =
      start_track (min (max 1 count - 1) track)
        (record p { backend = backend_gme; file_index = index; track_count = max 1 count })
  open_decoded index track (vorbis rewinds) p = (
    true,
    record p {
      backend = backend_vorbis;
      file_index = index;
      track_index = 0;
      track_count = 1;
      paused = false;
    },
  )

  unfoldable pub open_file : ℕ → ℕ → Player → Bool × Player
  open_file index track p =
      if leb (length files) index
      then (false, close_track p)
      else open_decoded index track (decoded index) (close_track p)

  -- The loop over the attempts, with the rounds that are left.
  unfoldable pub first_loop : ℕ → Player → Bool × Player
  first_loop zero p = (false, p)
  first_loop (suc rounds) p =
      let (opened, p') = open_file p.file_index 0 p in
      let rest =
        first_loop rounds (record p' { file_index = (p'.file_index + 1) % length files }) in
      if opened then (true, p') else rest

  unfoldable pub open_first : Player → Bool × Player
  open_first p = if length files == 0 then (false, p) else first_loop (length files) p

  -- The file of an attempt, in front of the current one or behind.
  abbrev pub candidate : Bool → ℕ → ℕ → ℕ
  candidate backward current attempt =
      if backward
      then (current + length files - attempt % length files) % length files
      else (current + attempt) % length files

  unfoldable pub file_loop : ℕ → ℕ → Bool → ℕ → Player → Bool × Player
  file_loop zero attempt backward current p = (false, p)
  file_loop (suc rounds) attempt backward current p =
      let (opened, p') = open_file (candidate backward current attempt) 0 p in
      let rest = file_loop rounds (attempt + 1) backward current p' in
      if opened then (true, p') else rest

  unfoldable pub change_file : Bool → Player → Bool × Player
  change_file backward p =
      if length files == 0 then (false, p) else file_loop (length files) 1 backward p.file_index p

  unfoldable pub change_track : Bool → Player → Bool × Player
  change_track backward p =
      if not (is_gme p.backend) || p.track_count == 0
      then (false, p)
      else start_track
          (if backward
            then (p.track_index + p.track_count - 1) % p.track_count
            else (p.track_index + 1) % p.track_count)
          p

  -- A random track of a file that was opened.
  unfoldable pub random_track : Player → Bool × Player
  random_track p =
      if is_gme p.backend && ltb 1 p.track_count
      then (let (r, p') = next_random p in start_track (r % p.track_count) p')
      else (true, p)

  -- The loop over the attempts, which passes over the current file.
  unfoldable pub random_loop : ℕ → ℕ → ℕ → ℕ → Player → Bool × (Bool × Player)
  random_loop zero attempt offset current p = (false, (false, p))
  random_loop (suc rounds) attempt offset current p =
      let next = (current + offset + attempt) % length files in
      let (opened, p') = open_file next 0 p in
      let skipped = random_loop rounds (attempt + 1) offset current p in
      let rest = random_loop rounds (attempt + 1) offset current p' in
      if ltb 1 (length files) && next == current
      then skipped
      else if opened
      then (true, random_track p')
      else rest

  -- The current file again, where no other opens.
  unfoldable pub random_end : ℕ → Bool × (Bool × Player) → Bool × Player
  random_end current (found, (started, p)) =
      if found
      then (started, p)
      else (let (opened, p') = open_file current 0 p in
          if opened then random_track p' else (false, p'))

  unfoldable pub random_offset : Player → ℕ × Player
  random_offset p =
      if ltb 1 (length files)
      then (let (r, p') = next_random p in (1 + r % (length files - 1), p'))
      else (0, p)

  unfoldable pub change_random_file : Player → Bool × Player
  change_random_file p =
      if length files == 0
      then (false, p)
      else let (offset, p') = random_offset p in
        random_end p.file_index (random_loop (length files) 0 offset p.file_index p')

  -- The end of a track, of what the current file was decoded to.
  abbrev rewinds : Decoded → Bool
  rewinds (vorbis b) = b
  rewinds _ = false

  unfoldable pub restart : PlayerBackend → Player → Bool × Player
  restart backend_gme p = start_track p.track_index p
  restart backend_vorbis p = (rewinds (decoded p.file_index), p)
  restart backend_none p = (false, p)

  unfoldable pub follow : PlaybackMode → Player → Bool × Player
  follow loop_one p = restart p.backend p
  follow shuffle p = change_random_file p
  follow loop_all p =
      if is_gme p.backend && ltb (p.track_index + 1) p.track_count
      then start_track (p.track_index + 1) p
      else change_file false p

  unfoldable pub advance_after_end : Player → Bool × Player
  advance_after_end p = follow p.playback_mode p
