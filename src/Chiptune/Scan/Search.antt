-- ===== src/Chiptune/Scan/Search.antt =====
-- `scan_chiptunes` lists what it finds.
use nes_deck.Prelude.{
  ℕ, zero, suc, ◌≤◌, ◌<◌, ◌≡◌, refl, arith, ◌⊎◌, inl, inr, ◌↔◌, true, Bool-cases, List, [], leb,
  length, Bytes,
}
use nes_deck.Chiptune.Scan.{
  Node, regular, directory, skipped, Entries, nil, entry, maximum_files, not_after, insert,
  is_visible, sorted_names, is_playable, path_in, scan_node, scan_names, scan_chiptunes,
}
use nes_deck.Chiptune.Scan.Found.{
  Listed, Some, FoundAt, Found, Collects, full, nothing, one, both, alike,
}

-- Sorting keeps the entries that are visible.
Some-insert :
    (P : Bytes → Node → Type 0) (name : Bytes) (node : Node) (entries : Entries)
    → Some P (insert name node entries) ↔ (P name node ⊎ Some P entries)
unfolding insert
Some-insert P name node nil = (λ h. h, λ h. h)
Some-insert P name node (entry name' node' rest) = elim (Bool-cases (not_after name name')) [
  | inl first ↦ rw first (λ h. h, λ h. h)
  | inr later ↦
      let (to, from) = Some-insert P name node rest in
      rw later (
        λ h. elim h [
          | inl here ↦ inr (inl here)
          | inr there ↦ elim (to there) [ inl new ↦ inl new | inr old ↦ inr (inr old) ]
        ],
        λ h. elim h [
          | inl new ↦ inr (from (inl new))
          | inr (inl here) ↦ inl here
          | inr (inr old) ↦ inr (from (inr old))
        ],
      )
]

Some-sorted_names :
    (P : Bytes → Node → Type 0) (entries : Entries)
    → Some P (sorted_names entries)
      ↔ Some (λ name node. (is_visible name ≡ true) × P name node) entries
unfolding sorted_names
Some-sorted_names P nil = (λ h. h, λ h. h)
Some-sorted_names P (entry name node rest) =
    let (to, from) = Some-sorted_names P rest in
    elim (Bool-cases (is_visible name)) [
      | inl visible ↦
          let (split, join) = Some-insert P name node (sorted_names rest) in
          rw visible (
            λ h. elim (split h) [ inl here ↦ inl (refl, here) | inr there ↦ inr (to there) ],
            λ h. elim h [ inl (e, here) ↦ join (inl here) | inr there ↦ join (inr (from there)) ],
          )
      | inr hidden ↦ rw hidden (
        λ h. inr (to h),
        λ h. elim h [ inl (e, here) ↦ absurd (ground (arith, e)) | inr there ↦ from there ],
      )
    ]

module _ (levels : ℕ) where
  InNode : Bytes → Node → Bytes → Type 0
  InNode path node p = FoundAt (Found levels p) p path node

  -- The search in the directories of one level further down.
  Deeper : (Bytes → Entries → List Bytes → List Bytes) → Type 0
  Deeper scan =
      (dir : Bytes) (entries : Entries) (files : List Bytes)
      → Collects (λ p. Found levels p dir entries) files (scan dir entries files)

  scan_node-Collects :
      (scan : Bytes → Entries → List Bytes → List Bytes) (path : Bytes) (node : Node)
      (files : List Bytes)
      → Deeper scan
      → length files < maximum_files
      → Collects (InNode path node) files (scan_node scan path node files)
  unfolding scan_node InNode Deeper
  scan_node-Collects scan path (regular size) files deeper few =
      elim (Bool-cases (is_playable size path)) [
        | inl playable ↦ rw playable (one _ path files few (λ p. (λ h. h.1, λ e. (playable, e))))
        | inr other ↦ rw other (nothing _ files (λ p h. absurd (ground (arith, other, h.0))))
      ]
  scan_node-Collects scan path (directory entries) files deeper few = deeper path entries files
  scan_node-Collects scan path skipped files deeper few = nothing _ files (λ p h. h)

  scan_names-Collects :
      (scan : Bytes → Entries → List Bytes → List Bytes) (dir : Bytes) (entries : Entries)
      (files : List Bytes)
      → Deeper scan
      → Collects
          (λ p. Some (λ name node. InNode (path_in dir name) node p) entries)
          files
          (scan_names scan dir entries files)
  unfolding scan_names
  scan_names-Collects scan dir nil files deeper = nothing _ files (λ p h. h)
  scan_names-Collects scan dir (entry name node rest) files deeper =
      elim (Bool-cases (leb maximum_files (length files))) [
        | inl many ↦ rw many (full _ files (ground (arith, many)))
        | inr few ↦ rw few (
            both _ _ files _ _
              (scan_node-Collects scan (path_in dir name) node files deeper (ground (arith, few)))
              (scan_names-Collects scan dir rest _ deeper))
      ]

scan_chiptunes-Collects :
    (levels : ℕ) (dir : Bytes) (entries : Entries) (files : List Bytes)
    → Collects (λ p. Found levels p dir entries) files (scan_chiptunes levels dir entries files)
unfolding scan_chiptunes InNode Deeper
scan_chiptunes-Collects zero dir entries files = nothing _ files (λ p h. h)
scan_chiptunes-Collects (suc levels) dir entries files =
    elim (Bool-cases (leb maximum_files (length files))) [
      | inl many ↦ rw many (full _ files (ground (arith, many)))
      | inr few ↦ rw few (
          alike _ _ files _
            (λ p.
              Some-sorted_names (λ name node. FoundAt (Found levels p) p (path_in dir name) node)
                entries)
            (scan_names-Collects levels (scan_chiptunes levels) dir (sorted_names entries) files
              (scan_chiptunes-Collects levels)))
    ]

-- The result of a search.
pub record Finds (levels : ℕ) (dir : Bytes) (entries : Entries) (files : List Bytes) : Type 0 where
  pub few : length files ≤ maximum_files
  pub sound : (p : Bytes) → Listed p files → Found levels p dir entries
  pub complete :
      length files < maximum_files → (p : Bytes) → Found levels p dir entries → Listed p files

-- In any tree of files, the search that starts with an empty list ends with at most 1024 files, each
-- of which is a regular file of at least one byte and at most 16 MiB, with one of the extensions, that
-- the tree holds at its path, under visible names only and at most so many levels down; where it
-- lists fewer than 1024, it lists all of these.
pub scan_chiptunes-Finds :
    (levels : ℕ) (dir : Bytes) (entries : Entries)
    → Finds levels dir entries (scan_chiptunes levels dir entries [])
scan_chiptunes-Finds levels dir entries =
    let found = scan_chiptunes-Collects levels dir entries [] in
    record {
      few = found.bounded (omega arith);
      sound = λ p h. elim (found.sound p h) [ inl listed ↦ absurd listed | inr there ↦ there ];
      complete = λ less p h. found.complete less p (inr h);
    }
