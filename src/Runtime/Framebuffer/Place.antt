-- ===== src/Runtime/Framebuffer/Place.antt =====
-- Where the copies of a source pixel lie, and what belongs at an address of the turned frame.
use nes_deck.Prelude.{
  ℕ, ◌+◌, ◌-◌, ◌*◌, ◌/◌, ◌%◌, ◌≤◌, ◌<◌, ◌≡◌, sym, ap, ap₂, subst, ◌∙◌, arith, some, Bool-cases, inl,
  inr, ltb, ◌==◌, ◌||◌,
}
use nes_deck.Prelude.Loops.{Memory}
use nes_deck.Runtime.Framebuffer.{address, physical_height}
use nes_deck.Runtime.Layout.{
  DeckScaledLayout, compute_scaled_layout, usable_width, usable_height, IsLayout,
  compute_scaled_layout-IsLayout,
}
use mathlib.Core.Option.{some-injective}
use native.Mathlib.Nat.{
  mul-le-mul_right, add-mul, mul-add-div_right, mul-add-mod_self_right, div-eq_of_lt, mod-eq_of_lt,
}

-- A frame of the source on a panel: inside it, at a scale.
pub record Fits (row_words width height : ℕ) (l : DeckScaledLayout) : Type 0 where
  pub visible : 1 ≤ l.scale
  pub scaled_width : l.width ≡ width * l.scale
  pub scaled_height : l.height ≡ height * l.scale
  pub in_width : l.x + width * l.scale ≤ 1264
  pub in_height : l.y + height * l.scale ≤ 464
  pub line : 600 ≤ row_words

-- A copy of a pixel lies between its pixel and the next.
pub copy-lt : (i d n scale : ℕ) → i < n → d < scale → i * scale + d < n * scale
copy-lt i d n scale below small =
    let next : (i + 1) * scale ≤ n * scale = mul-le-mul_right scale (omega arith) in
    omega (arith, next, add-mul i 1 scale)

-- The pixel of a copy.
copy-pixel : (i d scale : ℕ) → d < scale → (i * scale + d) / scale ≡ i
copy-pixel i d scale small =
    let some_scale : 0 < scale = omega arith in
    omega (arith, mul-add-div_right some_scale i d, div-eq_of_lt small)

module _ (row_words : ℕ) (l : DeckScaledLayout) (color : ℕ → ℕ → ℕ) where
  -- The word that belongs at an address: the color of the source pixel that it shows.
  pub belongs : Memory
  belongs a =
      color ((a % row_words - l.y) / l.scale)
        ((physical_height - 1 - a / row_words - l.x) / l.scale)

  pub belongs-address :
      (width height x y dx dy : ℕ)
      → Fits row_words width height l
      → x < width
      → y < height
      → dx < l.scale
      → dy < l.scale
      → belongs (
          address row_words
            (physical_height - 1 - (l.x + (x * l.scale + dx)))
            (l.y + (y * l.scale + dy)))
        ≡ color y x
  unfolding belongs
  belongs-address width height x y dx dy f in_x in_y small_x small_y =
      let across = copy-lt x dx width l.scale in_x small_x in
      let along = copy-lt y dy height l.scale in_y small_y in
      let row = physical_height - 1 - (l.x + (x * l.scale + dx)) in
      let column = l.y + (y * l.scale + dy) in
      let short : column < row_words = omega (arith, along, f.in_height, f.line) in
      let some_line : 0 < row_words = omega (arith, f.line) in
      let line : address row_words row column / row_words ≡ row =
        omega (arith, mul-add-div_right some_line row column, div-eq_of_lt short) in
      let place : address row_words row column % row_words ≡ column =
        mul-add-mod_self_right row row_words column ∙ mod-eq_of_lt short in
      let up : address row_words row column % row_words - l.y ≡ y * l.scale + dy =
        omega (arith, place) in
      let out : physical_height - 1 - address row_words row column / row_words - l.x
          ≡ x * l.scale + dx =
        omega (arith, line, across, f.in_width) in
      ap₂ color (ap (λ n. n / l.scale) up ∙ copy-pixel y dy l.scale small_y)
        (ap (λ n. n / l.scale) out ∙ copy-pixel x dx l.scale small_x)

-- A frame has a layout only if it is not empty and not too large.
compute_scaled_layout-some :
    (w h : ℕ) (l : DeckScaledLayout)
    → compute_scaled_layout w h ≡ some l
    → (1 ≤ w) × (1 ≤ h) × (w ≤ usable_width) × (h ≤ usable_height)
unfolding compute_scaled_layout
compute_scaled_layout-some w h l e = elim (Bool-cases (w == 0 || h == 0)) [
  | inl empty ↦ absurd (ground (arith, e, empty))
  | inr filled ↦ elim (Bool-cases (ltb usable_width w || ltb usable_height h)) [
    | inl large ↦ absurd (ground (arith, e, filled, large))
    | inr small ↦ ground (arith, filled, small)
  ]
]

Fits-IsLayout :
    (row_words w h : ℕ) (l : DeckScaledLayout)
    → 600 ≤ row_words
    → IsLayout w h l
    → Fits row_words w h l
Fits-IsLayout row_words w h l line is = record {
  visible = is.visible;
  scaled_width = is.scaled_width;
  scaled_height = is.scaled_height;
  in_width = omega (arith, is.right_margin, is.scaled_width);
  in_height = omega (arith, is.bottom_margin, is.scaled_height);
  line = line;
}

-- A frame that has a layout fits, on a panel of lines that are long enough.
pub compute_scaled_layout-Fits :
    (row_words w h : ℕ) (l : DeckScaledLayout)
    → 600 ≤ row_words
    → compute_scaled_layout w h ≡ some l
    → Fits row_words w h l
compute_scaled_layout-Fits row_words w h l line e =
    let (low, low', high, high') = compute_scaled_layout-some w h l e in
    let (l', e', is) = compute_scaled_layout-IsLayout w h low low' high high' in
    let same : l' ≡ l = some-injective l' l (sym e' ∙ e) in
    Fits-IsLayout row_words w h l line (subst (IsLayout w h) same is)
