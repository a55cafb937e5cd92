-- ===== src/Catalog/Manifest/WellFormed.antt =====
-- The catalogs that the menu can show, and the insertion of an entry into one.
use nes_deck.Prelude.{
  ℕ, ◌-◌, ◌≤◌, ◌<◌, ◌≡◌, ◌≢◌, refl, sym, ap, subst, ◌∙◌, arith, true, false, List, [], ◌∷◌, ◌++◌,
  map, none, length, All, All-append, Bytes, equal_iff,
}
use nes_deck.Catalog.Color.{is_xterm_color, xterm_color}
use nes_deck.Catalog.Color.Laws.{is_xterm_color_iff}
use nes_deck.Catalog.Entry.{GameEntry, valid_system}
use nes_deck.Catalog.Entry.Slug.{IsSlug, valid_id_iff}
use nes_deck.Catalog.Manifest.{Progress, contains, field_problem}
use nes_deck.Catalog.Rom.{validate_rom}
use nes_deck.Kernel.{Kernel}
use nes_deck.Text.{path_max, valid_utf8_text}
use nes_deck.Text.Trim.{IsTrimmed, trim_ascii_space_iff}

-- No name twice.
pub data Distinct : List Bytes → Type 0 where
  nil : Distinct []
  cons : (x : Bytes) {xs : List Bytes} → All (λ y. x ≢ y) xs → Distinct xs → Distinct (x ∷ xs)

contains-All : (x : Bytes) (ys : List Bytes) → contains x ys ≡ false → All (λ y. y ≢ x) ys
unfolding contains
contains-All x [] h = tt
contains-All x (y ∷ ys) h =
    (λ e. ground (arith, h, (equal_iff x y).1 (sym e)), contains-All x ys (ground (arith, h)))

Distinct-append :
    (xs : List Bytes) (x : Bytes) → Distinct xs → All (λ y. y ≢ x) xs → Distinct (xs ++ x ∷ [])
Distinct-append [] x d h = cons x tt nil
Distinct-append (y ∷ ys) x (cons _ new d) h =
    cons y (All-append _ ys (x ∷ []) new (h.0, tt)) (Distinct-append ys x d h.1)

map-append {ℓ κ} :
    {A : Type ℓ} {B : Type κ} (f : A → B) (xs ys : List A) → map f (xs ++ ys) ≡ map f xs ++ map f ys
map-append f [] ys = refl
map-append f (x ∷ xs) ys = ap (λ t. f x ∷ t) (map-append f xs ys)

module _ (k : Kernel) where
  open k use {Disk}

  pub record IsEntry (game : GameEntry) : Type 0 where
    pub short_id : length game.id ≤ 48
    pub slug : IsSlug game.id
    pub title : valid_utf8_text game.title 64 false ≡ true
    pub trimmed_title : IsTrimmed game.title
    pub system : valid_system game.system ≡ true
    pub rom : valid_utf8_text game.rom (path_max - 1) false ≡ true
    pub trimmed_rom : IsTrimmed game.rom
    pub validated : (d : Disk) × ((validate_rom k game.system game.rom d).0 ≡ none)
    pub in_palette : (i : ℕ) × (i < 256) × (xterm_color i ≡ game.color)

  pub record IsCatalog (games : List GameEntry) : Type 0 where
    pub entries : All IsEntry games
    pub ids : Distinct (map (λ g. g.id) games)
    pub roms : Distinct (map (λ g. g.rom) games)
    pub few : length games ≤ 64

  -- The invariant of the loop.
  pub record Holds (p : Progress) : Type 0 where
    pub catalog : IsCatalog p.games
    pub same_ids : p.ids ≡ map (λ g. g.id) p.games
    pub same_roms : p.roms ≡ map (λ g. g.rom) p.games

  pub field_problem-IsEntry :
      (game : GameEntry)
      → field_problem game.id game.title game.system game.rom ≡ none
      → is_xterm_color game.color ≡ true
      → (d : Disk) → (validate_rom k game.system game.rom d).0 ≡ none
      → IsEntry game
  field_problem-IsEntry game h c d v = record {
    short_id = ((valid_id_iff game.id).0 (unfold field_problem in ground (arith, h))).0;
    slug = ((valid_id_iff game.id).0 (unfold field_problem in ground (arith, h))).1;
    title = unfold field_problem in ground (arith, h);
    trimmed_title =
        (trim_ascii_space_iff game.title).0
          ((equal_iff _ _).0 (unfold field_problem in ground (arith, h)));
    system = unfold field_problem in ground (arith, h);
    rom = unfold field_problem in ground (arith, h);
    trimmed_rom =
        (trim_ascii_space_iff game.rom).0
          ((equal_iff _ _).0 (unfold field_problem in ground (arith, h)));
    validated = (d, v);
    in_palette = (is_xterm_color_iff game.color).0 c;
  }

  -- The insertion of a new entry while there is room.
  pub push-Holds :
      (game : GameEntry) (p : Progress)
      → IsEntry game
      → Holds p
      → contains game.id p.ids ≡ false
      → contains game.rom p.roms ≡ false
      → length (p.games ++ game ∷ []) ≤ 64
      → Holds (record {
        games = p.games ++ game ∷ [];
        ids = p.ids ++ game.id ∷ [];
        roms = p.roms ++ game.rom ∷ [];
        saw_data = p.saw_data;
      })
  push-Holds game p good h new_id new_rom room =
      let same_ids =
        ap (λ t. t ++ game.id ∷ []) h.same_ids ∙ sym (map-append (λ g. g.id) p.games (game ∷ [])) in
      let same_roms =
        ap (λ t. t ++ game.rom ∷ []) h.same_roms
        ∙ sym (map-append (λ g. g.rom) p.games (game ∷ [])) in
      let ids = subst Distinct (sym h.same_ids) h.catalog.ids in
      let roms = subst Distinct (sym h.same_roms) h.catalog.roms in
      record {
        catalog = record {
          entries = All-append IsEntry p.games (game ∷ []) h.catalog.entries (good, tt);
          ids =
              subst Distinct same_ids
                (Distinct-append p.ids game.id ids (contains-All game.id p.ids new_id));
          roms =
              subst Distinct same_roms
                (Distinct-append p.roms game.rom roms (contains-All game.rom p.roms new_rom));
          few = room;
        };
        same_ids = same_ids;
        same_roms = same_roms;
      }
