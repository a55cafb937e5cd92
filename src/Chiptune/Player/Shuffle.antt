-- ===== src/Chiptune/Player/Shuffle.antt =====
-- A random file is another one, where another can be opened.
use nes_deck.Prelude.{
  ℕ, zero, suc, ◌+◌, ◌-◌, ◌%◌, ◌≤◌, ◌<◌, ◌≡◌, ◌≢◌, refl, sym, ap, subst, ◌∙◌, arith, inl, inr, Bool,
  true, false, Bool-cases, not, ◌&&◌, ◌||◌, List, ltb, leb, ◌==◌, if◌then◌else◌, length, Bytes,
  round,
}
use nes_deck.Chiptune.Player.{
  Decoded, Player, is_gme, decoded, starts, next_random, start_track, open_file, random_track,
  random_loop, random_end, random_offset, change_random_file,
}
use nes_deck.Chiptune.Player.Order.{openable, open_file-Tells}
use native.Mathlib.Nat.{mod-lt, mod-add-mod, mod-eq_of_lt}

true-ne-false : true ≡ false → ⊥
true-ne-false e = cc

module _ (files : List Bytes) (decode : Bytes → Decoded) where
  abbrev Stays : ℕ → Bool × Player → Type 0
  Stays index (ok, p) = p.file_index ≡ index

  choose-Stays :
      (b : Bool) (p q : Player) (i : ℕ)
      → p.file_index ≡ i
      → q.file_index ≡ i
      → Stays i (if b then (true, p) else (false, q))
  choose-Stays true p q i e f = e
  choose-Stays false p q i e f = f

  start_track-Stays :
      (track : ℕ) (p : Player) → Stays p.file_index (start_track files decode track p)
  unfolding start_track
  start_track-Stays track p =
      elim (Bool-cases (not (is_gme p.backend) || leb p.track_count track)) [
        | inl out ↦ simp out refl
        | inr inside ↦ simp inside (
            choose-Stays (starts files decode (decoded files decode p.file_index) track)
              (record p { track_index = track; paused = false }) p p.file_index refl refl)
      ]

  random_track-Stays : (p : Player) → Stays p.file_index (random_track files decode p)
  unfolding random_track next_random
  random_track-Stays p = elim (Bool-cases (is_gme p.backend && ltb 1 p.track_count)) [
    | inl several ↦ simp several (start_track-Stays _ _)
    | inr one ↦ simp one refl
  ]

  -- What the loop has found.
  pub record Elsewhere (current : ℕ) (p : Player) : Type 0 where
    pub elsewhere : p.file_index ≢ current
    pub inside : p.file_index < length files
    pub plays : openable files decode p.file_index ≡ true

  abbrev Finds : ℕ → Bool × (Bool × Player) → Type 0
  Finds current (found, (started, p)) = (found ≡ true) × Elsewhere current p

  module _ (offset current : ℕ) where
    next : ℕ → ℕ
    next attempt = (current + offset + attempt) % length files

    loop_skip :
        (rounds attempt : ℕ) (p : Player)
        → (ltb 1 (length files) && next attempt == current) ≡ true
        → random_loop files decode (suc rounds) attempt offset current p
          ≡ random_loop files decode rounds (attempt + 1) offset current p
    unfolding random_loop next
    loop_skip rounds attempt p e = simp e refl

    loop_hit :
        (rounds attempt : ℕ) (p : Player)
        → (ltb 1 (length files) && next attempt == current) ≡ false
        → (open_file files decode (next attempt) 0 p).0 ≡ true
        → random_loop files decode (suc rounds) attempt offset current p
          ≡ (true, random_track files decode (open_file files decode (next attempt) 0 p).1)
    unfolding random_loop next
    loop_hit rounds attempt p e f = simp (e, f) refl

    loop_miss :
        (rounds attempt : ℕ) (p : Player)
        → (ltb 1 (length files) && next attempt == current) ≡ false
        → (open_file files decode (next attempt) 0 p).0 ≡ false
        → random_loop files decode (suc rounds) attempt offset current p
          ≡ random_loop files decode rounds
              (attempt + 1)
              offset
              current
              (open_file files decode (next attempt) 0 p).1
    unfolding random_loop next
    loop_miss rounds attempt p e f = simp (e, f) refl

    next-lt : (attempt : ℕ) → 1 ≤ length files → next attempt < length files
    unfolding next
    next-lt attempt low = mod-lt (current + offset + attempt) low

    hit-Finds :
        (index : ℕ) (p : Player) (r : Bool × Player)
        → p.file_index ≡ index
        → index < length files
        → index ≢ current
        → openable files decode index ≡ true
        → Stays p.file_index r
        → Finds current (true, r)
    hit-Finds index p (ok, q) here below other plays stays =
        let e = stays ∙ here in
        (
          refl,
          record {
            elsewhere = λ same. other (sym e ∙ same);
            inside = omega (arith, e, below);
            plays = ap (openable files decode) e ∙ plays;
          },
        )

    -- The loop, where an attempt that is left comes to another file that can be opened.
    random_loop-Finds :
        (rounds attempt target : ℕ) (p : Player)
        → 2 ≤ length files
        → attempt ≤ target
        → target < attempt + rounds
        → next target ≢ current
        → openable files decode (next target) ≡ true
        → Finds current (random_loop files decode rounds attempt offset current p)
    random_loop-Finds zero attempt target p several low high other plays = absurd (omega arith)
    random_loop-Finds (suc rounds) attempt target p several low high other plays =
        let later = λ (q : Player) (apart : attempt ≢ target).
          random_loop-Finds rounds (attempt + 1) target q several (omega (arith, low, apart))
            (omega arith) other plays in
        let (told, place) =
          open_file-Tells files decode (next attempt) p (next-lt attempt (omega arith)) in
        elim (Bool-cases (ltb 1 (length files) && next attempt == current)) [
          | inl back ↦
              subst (Finds current) (sym (loop_skip rounds attempt p back))
                (later p (λ e. other (ap next (sym e) ∙ ground (arith, back))))
          | inr away ↦ elim (Bool-cases (openable files decode (next attempt))) [
            | inl e ↦
                let opened = (open_file files decode (next attempt) 0 p).1 in
                subst (Finds current) (sym (loop_hit rounds attempt p away (told ∙ e))) (
                  hit-Finds (next attempt) opened (random_track files decode opened) (place e)
                    (next-lt attempt (omega arith)) (λ same. ground (arith, away, same, several)) e
                    (random_track-Stays opened))
            | inr e ↦ subst (Finds current) (sym (loop_miss rounds attempt p away (told ∙ e))) (
                later _ (λ same.
                  true-ne-false
                    (sym plays ∙ ap (λ i. openable files decode (next i)) (sym same) ∙ e)))
          ]
        ]

-- Some attempt comes to every file.
next_reaches :
    (count base j : ℕ)
    → j < count
    → (attempt : ℕ) × (attempt < count) × ((base + attempt) % count ≡ j)
next_reaches count base j below =
    let b = base % count in
    let small : b < count = mod-lt base (omega (arith, below)) in
    elim (Bool-cases (ltb j b)) [
      | inl behind ↦
          let attempt = j + count - b in
          let land : (b + attempt) % count ≡ j = ground (
            arith,
            round (b + attempt) count (omega (arith, below)) (omega (arith, below, small)),
            small,
          ) in
          (attempt, ground (arith, behind, small), sym (mod-add-mod base count attempt) ∙ land)
      | inr ahead ↦
          let attempt = j - b in
          let e : b + attempt ≡ j = ground (arith, ahead) in
          (
            attempt,
            omega (arith, below),
            sym (mod-add-mod base count attempt) ∙ ap (λ n. n % count) e ∙ mod-eq_of_lt below,
          )
    ]

change_random_file-loop :
    (files : List Bytes) (decode : Bytes → Decoded) (p : Player)
    → 1 ≤ length files
    → change_random_file files decode p
      ≡ random_end files decode p.file_index (
          random_loop files decode
            (length files)
            0
            (random_offset files decode p).0
            p.file_index
            (random_offset files decode p).1)
unfolding change_random_file
change_random_file-loop files decode p low =
    let e : (length files == 0) ≡ false = ground (arith, low) in simp e refl

random_end-found :
    (files : List Bytes) (decode : Bytes → Decoded) (current : ℕ) (r : Bool × (Bool × Player))
    → Finds files decode current r
    → Elsewhere files decode current (random_end files decode current r).1
unfolding random_end
random_end-found files decode current (true, r) (e, there) = there
random_end-found files decode current (false, r) (e, there) = absurd (true-ne-false (sym e))

-- If a file of the list other than the current one can be opened, then a random change, whatever the
-- random numbers are, leaves the player at another file than before, one of the list that can be
-- opened.
pub change_random_file-Elsewhere :
    (files : List Bytes) (decode : Bytes → Decoded) (p : Player) (j : ℕ)
    → p.file_index < length files
    → j < length files
    → j ≢ p.file_index
    → openable files decode j ≡ true
    → Elsewhere files decode p.file_index (change_random_file files decode p).1
unfolding next
change_random_file-Elsewhere files decode p j inside below other plays =
    let (offset, q) = random_offset files decode p in
    let (attempt, high, there) = next_reaches (length files) (p.file_index + offset) j below in
    let found =
      random_loop-Finds files decode offset p.file_index (length files) 0 attempt q
        (omega (arith, inside, below, other)) (omega arith) (omega (arith, high))
        (λ e. other (sym there ∙ e)) (ap (openable files decode) there ∙ plays) in
    subst (λ r. Elsewhere files decode p.file_index r.1)
      (sym (change_random_file-loop files decode p (omega (arith, inside))))
      (random_end-found files decode p.file_index _ found)
