-- ===== src/Chiptune/Scan/Found.antt =====
-- Which files `scan_chiptunes` lists.
use nes_deck.Prelude.{
  ℕ, zero, suc, ◌≤◌, ◌<◌, ◌≡◌, arith, ◌⊎◌, inl, inr, ◌↔◌, true, List, [], ◌∷◌, ◌++◌, length,
  length-append, Bytes,
}
use nes_deck.Chiptune.Scan.{
  Node, regular, directory, skipped, Entries, nil, entry, maximum_files, is_visible, is_playable,
  path_in,
}

abbrev pub Listed : Bytes → List Bytes → Type 0
Listed p [] = ⊥
Listed p (x ∷ xs) = (p ≡ x) ⊎ Listed p xs

-- Some entry with a property.
abbrev pub Some : (Bytes → Node → Type 0) → Entries → Type 0
Some P nil = ⊥
Some P (entry name node rest) = P name node ⊎ Some P rest

-- The file at a path that a node, or a directory, holds at most so many levels down.
abbrev pub FoundAt : (Bytes → Entries → Type 0) → Bytes → Bytes → Node → Type 0
FoundAt Inside p path (regular size) = (is_playable size path ≡ true) × (p ≡ path)
FoundAt Inside p path (directory entries) = Inside path entries
FoundAt Inside p path skipped = ⊥

abbrev pub Found : ℕ → Bytes → Bytes → Entries → Type 0
Found zero p dir entries = ⊥
Found (suc levels) p dir entries =
    Some
      (λ name node. (is_visible name ≡ true) × FoundAt (Found levels p) p (path_in dir name) node)
      entries

-- What a part of the search has added to the list.
pub record Collects (F : Bytes → Type 0) (files result : List Bytes) : Type 0 where
  pub grows : length files ≤ length result
  pub bounded : length files ≤ maximum_files → length result ≤ maximum_files
  pub sound : (p : Bytes) → Listed p result → Listed p files ⊎ F p
  pub complete :
      length result < maximum_files → (p : Bytes) → Listed p files ⊎ F p → Listed p result

Listed-append_left : (p : Bytes) (xs ys : List Bytes) → Listed p xs → Listed p (xs ++ ys)
Listed-append_left p [] ys h = absurd h
Listed-append_left p (x ∷ xs) ys (inl e) = inl e
Listed-append_left p (x ∷ xs) ys (inr h) = inr (Listed-append_left p xs ys h)

Listed-last : (p x : Bytes) (xs : List Bytes) → p ≡ x → Listed p (xs ++ x ∷ [])
Listed-last p x [] e = inl e
Listed-last p x (y ∷ xs) e = inr (Listed-last p x xs e)

Listed-split : (p x : Bytes) (xs : List Bytes) → Listed p (xs ++ x ∷ []) → Listed p xs ⊎ (p ≡ x)
Listed-split p x [] (inl e) = inr e
Listed-split p x [] (inr h) = absurd h
Listed-split p x (y ∷ xs) (inl e) = inl (inl e)
Listed-split p x (y ∷ xs) (inr h) = elim (Listed-split p x xs h) [
  | inl there ↦ inl (inr there)
  | inr last ↦ inr last
]

pub full :
    (F : Bytes → Type 0) (files : List Bytes)
    → maximum_files ≤ length files
    → Collects F files files
full F files many = record {
  grows = omega arith;
  bounded = λ h. h;
  sound = λ p h. inl h;
  complete = λ few. absurd (omega (arith, many, few));
}

pub nothing :
    (F : Bytes → Type 0) (files : List Bytes) → ((p : Bytes) → F p → ⊥) → Collects F files files
nothing F files none_found = record {
  grows = omega arith;
  bounded = λ h. h;
  sound = λ p h. inl h;
  complete = λ few p h. elim h [ inl listed ↦ listed | inr found ↦ absurd (none_found p found) ];
}

pub one :
    (F : Bytes → Type 0) (path : Bytes) (files : List Bytes)
    → length files < maximum_files
    → ((p : Bytes) → F p ↔ (p ≡ path))
    → Collects F files (files ++ path ∷ [])
one F path files few only =
    let e = length-append files (path ∷ []) in
    record {
      grows = omega (arith, e);
      bounded = λ h. omega (arith, e, few);
      sound = λ p h. elim (Listed-split p path files h) [
        | inl listed ↦ inl listed
        | inr last ↦ inr ((only p).1 last)
      ];
      complete = λ less p h. elim h [
        | inl listed ↦ Listed-append_left p files _ listed
        | inr found ↦ Listed-last p path files ((only p).0 found)
      ];
    }

pub both :
    (F G : Bytes → Type 0) (files middle result : List Bytes)
    → Collects F files middle
    → Collects G middle result
    → Collects (λ p. F p ⊎ G p) files result
both F G files middle result f g = record {
  grows = omega (arith, f.grows, g.grows);
  bounded = λ h. g.bounded (f.bounded h);
  sound = λ p h. elim (g.sound p h) [
    | inl before ↦ elim (f.sound p before) [ inl listed ↦ inl listed | inr found ↦ inr (inl found) ]
    | inr found ↦ inr (inr found)
  ];
  complete = λ few p h.
      let earlier = f.complete (omega (arith, few, g.grows)) p in
      elim h [
        | inl listed ↦ g.complete few p (inl (earlier (inl listed)))
        | inr (inl found) ↦ g.complete few p (inl (earlier (inr found)))
        | inr (inr found) ↦ g.complete few p (inr found)
      ];
}

pub alike :
    (F G : Bytes → Type 0) (files result : List Bytes)
    → ((p : Bytes) → F p ↔ G p)
    → Collects F files result
    → Collects G files result
alike F G files result same f = record {
  grows = f.grows;
  bounded = f.bounded;
  sound =
      λ p h. elim (f.sound p h) [ inl listed ↦ inl listed | inr found ↦ inr ((same p).0 found) ];
  complete = λ few p h. elim h [
    | inl listed ↦ f.complete few p (inl listed)
    | inr found ↦ f.complete few p (inr ((same p).1 found))
  ];
}
