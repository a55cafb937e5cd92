-- ===== src/Runtime/Layout.antt =====
-- `DeckComputeScaledLayout`: the place of a frame of an emulator on the display.
use nes_deck.Prelude.{
  ℕ, suc, ◌+◌, ◌-◌, ◌*◌, ◌/◌, ◌≤◌, ◌<◌, ◌≡◌, refl, ap, min, arith, ◌⊎◌, inl, inr, Bool, true,
  Bool-cases, ◌||◌, ◌&&◌, Option, none, some, ltb, leb, ◌==◌, if◌then◌else◌,
}
use native.Mathlib.Nat.{mul-div-le, lt-mul-div-succ, mul-le-mul_left}

pub record DeckScaledLayout : Type 0 where
  pub scale : ℕ
  pub x : ℕ
  pub y : ℕ
  pub width : ℕ
  pub height : ℕ

abbrev pub logical_width : ℕ
logical_width = 1280

abbrev pub logical_height : ℕ
logical_height = 480

abbrev pub safe_inset : ℕ
safe_inset = 16

abbrev pub usable_width : ℕ
usable_width = logical_width - 2 * safe_inset

abbrev pub usable_height : ℕ
usable_height = logical_height - 2 * safe_inset

-- The layout at a scale.
abbrev pub layout_at : ℕ → ℕ → ℕ → DeckScaledLayout
layout_at source_width source_height scale = record {
  scale = scale;
  x = (logical_width - source_width * scale) / 2;
  y = (logical_height - source_height * scale) / 2;
  width = source_width * scale;
  height = source_height * scale;
}

-- The tests on the finished layout.
unfoldable pub inside : DeckScaledLayout → Bool
inside layout =
    leb safe_inset layout.x
    && leb safe_inset layout.y
    && leb (layout.x + layout.width) (logical_width - safe_inset)
    && leb (layout.y + layout.height) (logical_height - safe_inset)

-- `none` where the function returns false.
unfoldable pub compute_scaled_layout : ℕ → ℕ → Option DeckScaledLayout
compute_scaled_layout source_width source_height =
    if source_width == 0 || source_height == 0
    then none
    else if ltb usable_width source_width || ltb usable_height source_height
    then none
    else (let scale = min (usable_width / source_width) (usable_height / source_height) in
        if ltb scale 1
        then none
        else if inside (layout_at source_width source_height scale)
        then some (layout_at source_width source_height scale)
        else none)

-- A layout of the largest whole scale that fits, with margins that differ by at most one.
pub record IsLayout (source_width source_height : ℕ) (l : DeckScaledLayout) : Type 0 where
  pub scaled_width : l.width ≡ source_width * l.scale
  pub scaled_height : l.height ≡ source_height * l.scale
  pub visible : 1 ≤ l.scale
  pub largest :
      (usable_width < source_width * suc l.scale) ⊎ (usable_height < source_height * suc l.scale)
  pub left_margin : safe_inset ≤ l.x
  pub right_margin : l.x + l.width + safe_inset ≤ logical_width
  pub centred_x : (l.x + l.width + l.x ≤ logical_width) × (logical_width ≤ l.x + l.width + l.x + 1)
  pub top_margin : safe_inset ≤ l.y
  pub bottom_margin : l.y + l.height + safe_inset ≤ logical_height
  pub centred_y :
      (l.y + l.height + l.y ≤ logical_height) × (logical_height ≤ l.y + l.height + l.y + 1)

-- A scale that is the smaller of the two quotients.
scale_fits : (room size other : ℕ) → 1 ≤ size → size * min (room / size) other ≤ room
scale_fits room size other low =
    let smaller : min (room / size) other ≤ room / size = omega arith in
    let below : size * min (room / size) other ≤ size * (room / size) =
      mul-le-mul_left size smaller in
    omega (arith, below, mul-div-le room size)

one_step : (room size : ℕ) → 1 ≤ size → room < size * suc (room / size)
one_step room size low =
    let e : room / size + 1 ≡ suc (room / size) = omega arith in
    let same = ap (λ q. size * q) e in omega (arith, lt-mul-div-succ room low, same)

scale_visible : (room size : ℕ) → 1 ≤ size → size ≤ room → 1 ≤ room / size
scale_visible room size low high = elim (Bool-cases (ltb 0 (room / size))) [
  | inl more ↦ ground (arith, more)
  | inr none_fits ↦
      let e : suc (room / size) ≡ 1 = ground (arith, none_fits) in
      let one = ap (λ q. size * q) e in absurd (omega (arith, one_step room size low, one))
]

-- The smaller quotient cannot be passed.
scale_largest :
    (w h : ℕ)
    → 1 ≤ w
    → 1 ≤ h
    → (usable_width < w * suc (min (usable_width / w) (usable_height / h)))
      ⊎ (usable_height < h * suc (min (usable_width / w) (usable_height / h)))
scale_largest w h low low' = elim (Bool-cases (leb (usable_width / w) (usable_height / h))) [
  | inl first ↦
      let e : suc (min (usable_width / w) (usable_height / h)) ≡ suc (usable_width / w) =
        ground (arith, first) in
      let same = ap (λ q. w * q) e in inl (omega (arith, one_step usable_width w low, same))
  | inr second ↦
      let e : suc (min (usable_width / w) (usable_height / h)) ≡ suc (usable_height / h) =
        ground (arith, second) in
      let same = ap (λ q. h * q) e in inr (omega (arith, one_step usable_height h low', same))
]

layout_at-IsLayout :
    (w h scale : ℕ)
    → 1 ≤ scale
    → w * scale ≤ usable_width
    → h * scale ≤ usable_height
    → (usable_width < w * suc scale) ⊎ (usable_height < h * suc scale)
    → IsLayout w h (layout_at w h scale)
layout_at-IsLayout w h scale visible fits fits' largest = record {
  scaled_width = refl;
  scaled_height = refl;
  visible = visible;
  largest = largest;
  left_margin = omega arith;
  right_margin = omega arith;
  centred_x = (omega arith, omega arith);
  top_margin = omega arith;
  bottom_margin = omega arith;
  centred_y = (omega arith, omega arith);
}

inside_layout :
    (w h scale : ℕ)
    → w * scale ≤ usable_width
    → h * scale ≤ usable_height
    → inside (layout_at w h scale) ≡ true
unfolding inside
inside_layout w h scale fits fits' =
    let width = w * scale in let height = h * scale in ground (arith, fits, fits')

compute-some :
    (w h : ℕ)
    → 1 ≤ w
    → 1 ≤ h
    → w ≤ usable_width
    → h ≤ usable_height
    → 1 ≤ min (usable_width / w) (usable_height / h)
    → inside (layout_at w h (min (usable_width / w) (usable_height / h))) ≡ true
    → compute_scaled_layout w h ≡ some (layout_at w h (min (usable_width / w) (usable_height / h)))
unfolding compute_scaled_layout
compute-some w h low low' high high' visible fits =
    ground (arith, low, low', high, high', visible, fits)

-- A frame of at least one pixel and of at most the 1248 by 448 pixels inside the inset has a layout:
-- of the largest whole scale at which it fits, inside the inset, with margins on opposite sides that
-- differ by at most one pixel.
pub compute_scaled_layout-IsLayout :
    (w h : ℕ)
    → 1 ≤ w
    → 1 ≤ h
    → w ≤ usable_width
    → h ≤ usable_height
    → (l : DeckScaledLayout) × (compute_scaled_layout w h ≡ some l) × IsLayout w h l
compute_scaled_layout-IsLayout w h low low' high high' =
    let scale = min (usable_width / w) (usable_height / h) in
    let wide = scale_visible usable_width w low high in
    let tall = scale_visible usable_height h low' high' in
    let visible : 1 ≤ scale = omega (arith, wide, tall) in
    let fits : w * scale ≤ usable_width = scale_fits usable_width w (usable_height / h) low in
    let turn : scale ≡ min (usable_height / h) (usable_width / w) = omega arith in
    let same = ap (λ q. h * q) turn in
    let fits' : h * scale ≤ usable_height =
      omega (arith, same, scale_fits usable_height h (usable_width / w) low') in
    (
      layout_at w h scale,
      compute-some w h low low' high high' visible (inside_layout w h scale fits fits'),
      layout_at-IsLayout w h scale visible fits fits' (scale_largest w h low low'),
    )
