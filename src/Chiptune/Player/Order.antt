-- ===== src/Chiptune/Player/Order.antt =====
-- Which files open, and that a turn around the list comes past every file.
use nes_deck.Prelude.{
  ℕ, ◌+◌, ◌-◌, ◌%◌, ◌≤◌, ◌<◌, ◌≡◌, refl, ap, ◌∙◌, min, max, arith, ◌⊎◌, inl, inr, Bool, true, false,
  Bool-cases, not, ◌||◌, List, ltb, leb, if◌then◌else◌, length, Bytes, round,
}
use nes_deck.Chiptune.Player.{
  Decoded, unplayable, tracks, vorbis, is_gme, Player, close_track, decoded, starts, start_track,
  open_decoded, open_file,
}
use native.Mathlib.Nat.{mod-lt, mod-eq_of_lt}

-- What a decoder must give for a file to be opened at its first track.
abbrev opens : Decoded → Bool
opens unplayable = false
opens (tracks count start) = start 0
opens (vorbis rewinds) = true

module _ (files : List Bytes) (decode : Bytes → Decoded) where
  abbrev pub openable : ℕ → Bool
  openable index = opens (decoded files decode index)

  -- What `open_file` tells.
  abbrev Tells : Bool → ℕ → Bool × Player → Type 0
  Tells playable index (ok, p) = (ok ≡ playable) × (playable ≡ true → p.file_index ≡ index)

  choose-Tells :
      (b : Bool) (index : ℕ) (p q : Player)
      → p.file_index ≡ index
      → Tells b index (if b then (true, p) else (false, q))
  choose-Tells true index p q e = (refl, λ f. e)
  choose-Tells false index p q e = (refl, λ f. absurd (ground (arith, f)))

  start_track-Tells :
      (index count : ℕ) (start : ℕ → Bool) (p : Player)
      → decoded files decode index ≡ tracks count start
      → p.file_index ≡ index
      → is_gme p.backend ≡ true
      → 1 ≤ p.track_count
      → Tells (start 0) index (start_track files decode 0 p)
  unfolding start_track
  start_track-Tells index count start p is here gme some_track =
      let ready : (not (is_gme p.backend) || leb p.track_count 0) ≡ false =
        ground (arith, gme, some_track) in
      let same : starts files decode (decoded files decode p.file_index) 0 ≡ start 0 =
        ap (λ i. starts files decode (decoded files decode i) 0) here
        ∙ ap (λ d. starts files decode d 0) is in
      simp (ready, same)
        (choose-Tells (start 0) index (record p { track_index = 0; paused = false }) p here)

  open_decoded-Tells :
      (index : ℕ) (d : Decoded) (p : Player)
      → decoded files decode index ≡ d
      → Tells (opens d) index (open_decoded files decode index 0 d p)
  unfolding open_decoded
  open_decoded-Tells index unplayable p is = (refl, λ e. absurd (ground (arith, e)))
  open_decoded-Tells index (vorbis rewinds) p is = (refl, λ e. refl)
  open_decoded-Tells index (tracks count start) p is =
      let first : min (max 1 count - 1) 0 ≡ 0 = omega arith in
      simp first (start_track-Tells index count start _ is refl refl (omega arith))

  -- A file that the list has is opened exactly if it can be, and is then the current one.
  pub open_file-Tells :
      (index : ℕ) (p : Player)
      → index < length files
      → Tells (openable index) index (open_file files decode index 0 p)
  unfolding open_file
  open_file-Tells index p below =
      let inside : leb (length files) index ≡ false = ground (arith, below) in
      simp inside (open_decoded-Tells index _ (close_track p) refl)

-- The files of the attempts.
module _ (count current : ℕ) where
  abbrev pub turn : Bool → ℕ → ℕ
  turn backward attempt =
      if backward then (current + count - attempt % count) % count else (current + attempt) % count

  pub turn-lt : (backward : Bool) (attempt : ℕ) → 1 ≤ count → turn backward attempt < count
  turn-lt true attempt low = mod-lt (current + count - attempt % count) low
  turn-lt false attempt low = mod-lt (current + attempt) low

  landing : (x j : ℕ) → j < count → (x ≡ j) ⊎ (x ≡ j + count) → x % count ≡ j
  landing x j below (inl e) = ap (λ n. n % count) e ∙ mod-eq_of_lt below
  landing x j below (inr e) = grind (arith, round x count, below, e)

  pub turn_reaches :
      (backward : Bool) (j : ℕ)
      → current < count
      → j < count
      → (attempt : ℕ) × (1 ≤ attempt) × (attempt ≤ count) × (turn backward attempt ≡ j)
  turn_reaches false j here below = elim (Bool-cases (ltb current j)) [
    | inl ahead ↦
        let attempt = j - current in
        (
          attempt,
          ground (arith, ahead),
          omega arith,
          landing (current + attempt) j below (inl (ground (arith, ahead))),
        )
    | inr around ↦
        let attempt = j + count - current in
        (
          attempt,
          omega arith,
          ground (arith, around),
          landing (current + attempt) j below (inr (omega arith)),
        )
  ]
  turn_reaches true j here below = elim (Bool-cases (ltb j current)) [
    | inl behind ↦
        let attempt = current - j in
        let short : attempt % count ≡ attempt = mod-eq_of_lt (omega arith) in
        (
          attempt,
          ground (arith, behind),
          omega arith,
          landing (current + count - attempt % count) j below (inr (ground (arith, short, behind))),
        )
    | inr around ↦
        let attempt = current + count - j in
        let le : current ≤ j = ground (arith, around) in
        let r = round attempt count (omega arith) (omega arith) in
        (
          attempt,
          omega arith,
          omega (arith, le),
          landing (current + count - attempt % count) j below (ground (arith, r, le)),
        )
  ]
