-- ===== src/Menu/Palette/Sound.antt =====
-- What one line of a palette file says of the roles.
use nes_deck.Prelude.{
  ℕ, zero, suc, ◌≤◌, ◌<◌, ◌≡◌, ◌≢◌, refl, sym, ap, ◌∙◌, arith, ◌⊎◌, inl, inr, Bool, true, false,
  Bool-cases, not, ◌||◌, List, [], ◌∷◌, some, Option-cases, ◌==◌, length, length-set, get_or, set,
  Bytes, codes, equal, equal_iff,
}
use nes_deck.Catalog.Color.{RgbColor, rgb, parse_color}
use nes_deck.Catalog.Manifest.{strip_return, starts_comment}
use nes_deck.Text.{split_tabs}
use nes_deck.Menu.Palette.{
  token_names, token_count, valid_legacy_settings_icon, Progress, Turn, stopped, going, find_token,
  store_color, role_turn, icon_turn, fields_turn, line_turn,
}

-- A line that gives a role a colour.
pub record Names (i : ℕ) (color : RgbColor) (line : Bytes) : Type 0 where
  pub spelled : Bytes
  pub fields : split_tabs (strip_return line) ≡ get_or token_names i [] ∷ spelled ∷ []
  pub parsed : parse_color spelled ≡ some color

-- One of the lines does.
abbrev pub Named : ℕ → RgbColor → List Bytes → Type 0
Named i color [] = ⊥
Named i color (line ∷ lines) = Names i color line ⊎ Named i color lines

-- The colours and the marks have one place for each role.
pub record Sized (p : Progress) : Type 0 where
  pub sized_values : length p.values ≡ token_count
  pub sized_seen : length p.seen ≡ token_count

-- What a role has after a line: what it had, or what the line says.
abbrev pub Kept : Progress → Progress → ℕ → Type 0
Kept p p' i =
    (get_or p.seen i false ≡ true)
    × (get_or p'.values i (rgb 0 0 0) ≡ get_or p.values i (rgb 0 0 0))

get_or-set :
    {A : Type 0} (xs : List A) (i j : ℕ) (v d : A)
    → i < length xs
    → ((i ≡ j) × (get_or (set xs i v) j d ≡ v))
      ⊎ ((i ≢ j) × (get_or (set xs i v) j d ≡ get_or xs j d))
get_or-set [] i j v d h = absurd (omega arith)
get_or-set (x ∷ xs) zero zero v d h = inl (refl, refl)
get_or-set (x ∷ xs) zero (suc j) v d h = inr (λ e. omega arith, refl)
get_or-set (x ∷ xs) (suc i) zero v d h = inr (λ e. omega arith, refl)
get_or-set (x ∷ xs) (suc i) (suc j) v d h = elim (get_or-set xs i j v d (omega arith)) [
  | inl (e, f) ↦ inl (ap suc e, f)
  | inr (other, f) ↦ inr (λ e. other (omega (arith, e)), f)
]

find_token-le : (names : List Bytes) (role : Bytes) → find_token names role ≤ length names
unfolding find_token
find_token-le [] role = omega arith
find_token-le (name ∷ names) role = ground (arith, find_token-le names role)

find_token-found :
    (names : List Bytes) (role : Bytes)
    → find_token names role < length names
    → role ≡ get_or names (find_token names role) []
unfolding find_token
find_token-found [] role h = absurd (omega arith)
find_token-found (name ∷ names) role h = elim (Bool-cases (equal role name)) [
  | inl e ↦ rw e ((equal_iff role name).0 e)
  | inr e ↦ rw e (find_token-found names role (ground (arith, h, e)))
]

-- What a turn on a line has told.
abbrev pub Tells : Progress → Bytes → Turn → Type 0
Tells p line (stopped e) = Unit
Tells p line (going p') =
    Sized p'
    × ((i : ℕ)
        → get_or p'.seen i false ≡ true
        → Kept p p' i ⊎ Names i (get_or p'.values i (rgb 0 0 0)) line)

same-Tells : (p : Progress) (line : Bytes) → Sized p → Tells p line (going p)
same-Tells p line sized = (sized, λ i h. inl (h, refl))

marked_before :
    (seen : List Bool) (token i : ℕ)
    → token ≢ i
    → get_or (set seen token true) i false ≡ true
    → get_or seen i false ≡ true
marked_before [] token i other h = h
marked_before (b ∷ seen) zero zero other h = absurd (other refl)
marked_before (b ∷ seen) zero (suc i) other h = h
marked_before (b ∷ seen) (suc token) zero other h = h
marked_before (b ∷ seen) (suc token) (suc i) other h =
    marked_before seen token i (λ e. other (ap suc e)) h

stored-Sized :
    (p : Progress) (token : ℕ) (color : RgbColor)
    → Sized p
    → Sized (record p { values = set p.values token color; seen = set p.seen token true })
stored-Sized p token color sized = record {
  sized_values = length-set p.values token color ∙ sized.sized_values;
  sized_seen = length-set p.seen token true ∙ sized.sized_seen;
}

-- The place of the token that a line names.
stored-Names :
    (p : Progress) (line role value : Bytes) (color : RgbColor) (i : ℕ)
    → Sized p
    → split_tabs (strip_return line) ≡ role ∷ value ∷ []
    → find_token token_names role < token_count
    → parse_color value ≡ some color
    → get_or (set p.seen (find_token token_names role) true) i false ≡ true
    → ((get_or p.seen i false ≡ true)
        × (get_or (set p.values (find_token token_names role) color) i (rgb 0 0 0)
            ≡ get_or p.values i (rgb 0 0 0)))
      ⊎ Names i (get_or (set p.values (find_token token_names role) color) i (rgb 0 0 0)) line
stored-Names p line role value color i sized fields below parsed seen =
    let token = find_token token_names role in
    elim (get_or-set p.values token i color (rgb 0 0 0)
      (omega (arith, sized.sized_values, below))) [
        | inl (here, stored) ↦
            let named : role ≡ get_or token_names i [] =
              find_token-found token_names role below ∙ ap (λ n. get_or token_names n []) here in
            inr (record {
              spelled = value;
              fields = fields ∙ ap (λ r. r ∷ value ∷ []) named;
              parsed = parsed ∙ ap some (sym stored);
            })
        | inr (other, kept) ↦ inl (marked_before p.seen token i other seen, kept)
      ]

role_turn-Tells :
    (p : Progress) (line role value : Bytes) (n : ℕ)
    → Sized p
    → split_tabs (strip_return line) ≡ role ∷ value ∷ []
    → Tells p line (role_turn n (find_token token_names role) value p)
unfolding role_turn store_color
role_turn-Tells p line role value n sized fields =
    elim (Bool-cases (find_token token_names role == token_count)) [
      | inl e ↦ rw e tt
      | inr known ↦ elim (Bool-cases (get_or p.seen (find_token token_names role) false)) [
        | inl e ↦ rw known (rw e tt)
        | inr new ↦ elim (Option-cases (parse_color value)) [
          | inl e ↦ rw known (rw new (rw e tt))
          | inr (color, parsed) ↦ rw known (
              rw new (
                rw parsed (
                  stored-Sized p (find_token token_names role) color sized,
                  λ i h.
                      stored-Names p line role value color i sized fields
                        (ground (arith, known, find_token-le token_names role)) parsed h,
                )))
        ]
      ]
    ]

icon_turn-Tells :
    (p : Progress) (line name : Bytes) (n : ℕ) → Sized p → Tells p line (icon_turn n name p)
unfolding icon_turn
icon_turn-Tells p line name n sized =
    elim (Bool-cases (p.saw_legacy_settings_icon || not (valid_legacy_settings_icon name))) [
      | inl e ↦ rw e tt
      | inr e ↦ rw e (
        record { sized_values = sized.sized_values; sized_seen = sized.sized_seen },
        λ i h. inl (h, refl),
      )
    ]

fields_turn-Tells :
    (p : Progress) (line : Bytes) (n : ℕ) (fields : List Bytes)
    → Sized p
    → split_tabs (strip_return line) ≡ fields
    → Tells p line (fields_turn n fields p)
unfolding fields_turn
fields_turn-Tells p line n [] sized e = tt
fields_turn-Tells p line n (a ∷ []) sized e = tt
fields_turn-Tells p line n (a ∷ b ∷ c ∷ more) sized e = tt
fields_turn-Tells p line n (role ∷ value ∷ []) sized e =
    elim (Bool-cases (equal role (codes "settings-icon"))) [
      | inl icon ↦ rw icon (icon_turn-Tells p line value n sized)
      | inr plain ↦ rw plain (role_turn-Tells p line role value n sized e)
    ]

pub line_turn-Tells :
    (p : Progress) (line : Bytes) (n : ℕ)
    → Sized p
    → Tells p line (line_turn n (strip_return line) p)
unfolding line_turn
line_turn-Tells p line n sized =
    elim (Bool-cases (length (strip_return line) == 0 || starts_comment (strip_return line))) [
      | inl e ↦ rw e (same-Tells p line sized)
      | inr e ↦ rw e (fields_turn-Tells p line n _ sized refl)
    ]
