-- ===== src/Catalog/Manifest/Laws.antt =====
-- What a manifest that `load_manifest` accepts has given.
use nes_deck.Prelude.{
  ℕ, ◌+◌, ◌≡◌, ◌≢◌, refl, ap, inl, inr, arith, Bool, true, false, not, ◌&&◌, ◌||◌, Bool-cases, List,
  [], ◌∷◌, ◌++◌, Option, none, some, Option-cases, ltb, length, Bytes,
}
use nes_deck.Catalog.Color.{RgbColor, parse_color, is_xterm_color}
use nes_deck.Catalog.Entry.{GameEntry, is_empty, is_optional_header}
use nes_deck.Catalog.Manifest.{
  ManifestError, Progress, Turn, stopped, going, contains, field_problem, insert_game,
  insert_validated, add_colored, add_checked, add_fields, line_fields, line_turn, after_turn,
  manifest_loop, finish, load_opened, starts_comment, no_entries, empty_progress, load_stat,
  load_manifest, getlines, strip_return,
}
use nes_deck.Catalog.Rom.{RomError}
use nes_deck.Kernel.{Kernel, StatResult, stat_of, stat_failed}
use nes_deck.Text.{is_absolute_path, split_tabs}
use nes_deck.Catalog.Manifest.WellFormed.{
  nil, IsEntry, IsCatalog, Holds, push-Holds, field_problem-IsEntry,
}

module _ (k : Kernel) where
  open k use {Disk}

  abbrev Goes : Turn → Type 0
  Goes (stopped e p) = Unit
  Goes (going p) = Holds k p

  insert_game-Goes :
      (n : ℕ) (game : GameEntry) (p : Progress)
      → IsEntry k game
      → Holds k p
      → Goes (insert_game n game p)
  unfolding insert_game
  insert_game-Goes n game p good h = elim (Bool-cases (contains game.id p.ids)) [
    | inl e ↦ rw e tt
    | inr new_id ↦ elim (Bool-cases (contains game.rom p.roms)) [
      | inl e ↦ rw new_id (rw e tt)
      | inr new_rom ↦ elim (Bool-cases (ltb 64 (length (p.games ++ game ∷ [])))) [
        | inl e ↦ rw new_id (rw new_rom (rw e tt))
        | inr room ↦ rw new_id (
            rw new_rom (rw room (push-Holds k game p good h new_id new_rom (ground (arith, room)))))
      ]
    ]
  ]

  saw-Holds : (b : Bool) (p : Progress) → Holds k p → Holds k (record p { saw_data = b })
  saw-Holds b p h = record { catalog = h.catalog; same_ids = h.same_ids; same_roms = h.same_roms }

  insert_validated-Goes :
      (n : ℕ) (game : GameEntry) (p : Progress) (e : Option RomError)
      → (e ≡ none → IsEntry k game)
      → Holds k p
      → Goes (insert_validated n game p e)
  unfolding insert_validated
  insert_validated-Goes n game p (some e) good h = tt
  insert_validated-Goes n game p none good h = insert_game-Goes n game p (good refl) h

  add_colored-Goes :
      (n : ℕ) (id title system rom : Bytes) (color : Option RgbColor) (p : Progress) (d : Disk)
      → field_problem id title system rom ≡ none
      → Holds k p
      → Goes (add_colored k n id title system rom color p d).0
  unfolding add_colored
  add_colored-Goes n id title system rom none p d ok h = tt
  add_colored-Goes n id title system rom (some color) p d ok h =
      elim (Bool-cases (is_xterm_color color)) [
        | inr e ↦ rw e tt
        | inl e ↦ rw e (insert_validated-Goes n _ p _ (field_problem-IsEntry k _ ok e d) h)
      ]

  add_fields-Goes :
      (n : ℕ) (fields : List Bytes) (p : Progress) (d : Disk)
      → Holds k p
      → Goes (add_fields k n fields p d).0
  unfolding add_fields add_checked
  add_fields-Goes n (id ∷ title ∷ system ∷ rom ∷ color ∷ []) p d h =
      elim (Option-cases (field_problem id title system rom)) [
        | inl ok ↦ rw ok (add_colored-Goes n id title system rom (parse_color color) p d ok h)
        | inr (e, is) ↦ rw is tt
      ]
  add_fields-Goes n [] p d h = tt
  add_fields-Goes n (a ∷ []) p d h = tt
  add_fields-Goes n (a ∷ b ∷ []) p d h = tt
  add_fields-Goes n (a ∷ b ∷ c ∷ []) p d h = tt
  add_fields-Goes n (a ∷ b ∷ c ∷ e ∷ []) p d h = tt
  add_fields-Goes n (a ∷ b ∷ c ∷ e ∷ f ∷ g ∷ more) p d h = tt

  line_turn-Goes :
      (n : ℕ) (line : Bytes) (p : Progress) (d : Disk) → Holds k p → Goes (line_turn k n line p d).0
  unfolding line_turn line_fields
  line_turn-Goes n line p d h =
      let added =
        add_fields-Goes n (split_tabs (strip_return line)) (record p { saw_data = true }) d
          (saw-Holds true p h) in
      elim (Bool-cases (ltb 4096 (length line))) [
        | inl e ↦ rw e tt
        | inr short ↦
            elim (Bool-cases (is_empty (strip_return line) || starts_comment (strip_return line))) [
              | inl e ↦ rw short (rw e h)
              | inr kept ↦
                  elim (Bool-cases
                    (not p.saw_data && is_optional_header (split_tabs (strip_return line)))) [
                      | inl e ↦ rw short (rw kept (rw e (saw-Holds true p h)))
                      | inr e ↦ rw short (rw kept (rw e added))
                    ]
            ]
      ]

  after_turn-Goes :
      (rest : Progress → Disk → Turn × Disk) (t : Turn) (d : Disk)
      → ((p : Progress) (d : Disk) → Holds k p → Goes (rest p d).0)
      → Goes t
      → Goes (after_turn k rest t d).0
  unfolding after_turn
  after_turn-Goes rest (stopped e p) d next h = tt
  after_turn-Goes rest (going p) d next h = next p d h

  manifest_loop-Goes :
      (before : ℕ) (lines : List Bytes) (p : Progress) (d : Disk)
      → Holds k p
      → Goes (manifest_loop k before lines p d).0
  unfolding manifest_loop
  manifest_loop-Goes before [] p d h = h
  manifest_loop-Goes before (line ∷ lines) p d h =
      after_turn-Goes (manifest_loop k (before + 1) lines) _ _
        (λ p' d'. manifest_loop-Goes (before + 1) lines p' d')
        (line_turn-Goes (before + 1) line p d h)

  -- An outcome without an error is a catalog that is not empty.
  abbrev IsSound : Option ManifestError × List GameEntry → Type 0
  IsSound (error, games) = error ≡ none → IsCatalog k games × (games ≢ [])

  finish-IsSound : (bad : Bool) (t : Turn) → Goes t → IsSound (finish bad t)
  unfolding finish
  finish-IsSound bad (stopped e p) h = λ ok. absurd (ground (arith, ok))
  finish-IsSound true (going p) h = λ ok. absurd (ground (arith, ok))
  finish-IsSound false (going p) h = elim (Bool-cases (no_entries p.games)) [
    | inl e ↦ rw e (λ ok. absurd (ground (arith, ok)))
    | inr e ↦ rw e (λ ok. (h.catalog, λ n. ground (arith, ap no_entries n, e)))
  ]

  load_opened-IsSound :
      (stream : Option (Bytes × Bool)) (d : Disk) → IsSound (load_opened k stream d)
  unfolding load_opened
  load_opened-IsSound none d = λ ok. absurd (ground (arith, ok))
  load_opened-IsSound (some (content, bad)) d = finish-IsSound bad _ (
      manifest_loop-Goes 0 (getlines content) empty_progress d (record {
        catalog = record { entries = tt; ids = nil; roms = nil; few = omega arith };
        same_ids = refl;
        same_roms = refl;
      }))

  load_stat-IsSound :
      (status : StatResult) (stream : Option (Bytes × Bool)) (d : Disk)
      → IsSound (load_stat k status stream d)
  unfolding load_stat
  load_stat-IsSound stat_failed stream d = λ ok. absurd (ground (arith, ok))
  load_stat-IsSound (stat_of regular size) stream d =
      elim (Bool-cases (not regular || ltb 65536 size)) [
        | inl e ↦ rw e (λ ok. absurd (ground (arith, ok)))
        | inr e ↦ rw e (load_opened-IsSound stream d)
      ]

  -- A manifest is accepted only if it gives from one to 64 games, with no id twice and no ROM path
  -- twice. Each game has a slug of at most 48 characters for its id, a trimmed title that
  -- `valid_utf8_text` accepts as at most 64 code points, a system that the menu knows, a trimmed ROM
  -- path that `valid_utf8_text` accepts below PATH_MAX, a colour of the palette, and a ROM that
  -- `validate_rom` has accepted.
  pub load_manifest-IsCatalog :
      (path : Bytes) (status : StatResult) (stream : Option (Bytes × Bool)) (d : Disk)
      → (load_manifest k path status stream d).0 ≡ none
      → IsCatalog k (load_manifest k path status stream d).1
        × ((load_manifest k path status stream d).1 ≢ [])
  unfolding load_manifest
  load_manifest-IsCatalog path status stream d = elim (Bool-cases (is_absolute_path path)) [
    | inr e ↦ rw e (λ ok. absurd (ground (arith, ok)))
    | inl e ↦ rw e (load_stat-IsSound status stream d)
  ]
