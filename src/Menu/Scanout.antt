-- ===== src/Menu/Scanout.antt =====
-- The menu's canvas and the turned lines of the panel: `stage_canvas_for_scanout` and
-- `read_scanout_into_canvas`. A canvas is 1280 by 480 pixels, row by row; `row_words` is the length of
-- a line of the panel in words.
use nes_deck.Prelude.{
  ℕ, ◌+◌, ◌-◌, ◌*◌, ◌/◌, ◌%◌, ◌≤◌, ◌<◌, ◌≡◌, refl, ap, ◌∙◌, arith, inl, inr, ◌||◌, Option, none,
  some, ltb, ◌!=◌, if◌then◌else◌,
}
use nes_deck.Prelude.Loops.{
  for_each, for_each-Painted, Memory, write, write-Painted, Painted, SomeRound,
}
use native.Mathlib.Nat.{mul-add-div_right, mul-add-mod_self_right, div-eq_of_lt, mod-eq_of_lt}

-- The loops over the columns and the rows of the canvas.
unfoldable pub stage_pixels : Memory → ℕ → Memory → Memory
stage_pixels canvas row_words = for_each 1280 (λ logical_x. for_each 480 (λ logical_y frame.
    write frame ((1280 - 1 - logical_x) * row_words + logical_y)
      (canvas (logical_y * 1280 + logical_x))))

-- `none` where the function returns false; with the sizes of the two buffers.
unfoldable pub stage_canvas_for_scanout : ℕ → Memory → ℕ → ℕ → Memory → Option Memory
stage_canvas_for_scanout canvas_size canvas row_words frame_size frame =
    if canvas_size != 1280 * 480 || ltb row_words 600 || ltb frame_size (row_words * 1280)
    then none
    else some (stage_pixels canvas row_words frame)

unfoldable pub read_pixels : Memory → ℕ → Memory → Memory
read_pixels frame row_words = for_each 1280 (λ logical_x. for_each 480 (λ logical_y canvas.
    write canvas (logical_y * 1280 + logical_x)
      (frame ((1280 - 1 - logical_x) * row_words + logical_y))))

unfoldable pub read_scanout_into_canvas : Memory → ℕ → Memory → Option Memory
read_scanout_into_canvas frame row_words canvas =
    if ltb row_words 600 then none else some (read_pixels frame row_words canvas)

-- The pixel of the canvas that an address of the panel shows.
shown_pixel : ℕ → Memory → Memory
shown_pixel row_words canvas a = canvas (a % row_words * 1280 + (1279 - a / row_words))

shown_pixel-address :
    (row_words lx ly : ℕ) (canvas : Memory)
    → 600 ≤ row_words
    → lx < 1280
    → ly < 480
    → shown_pixel row_words canvas ((1280 - 1 - lx) * row_words + ly) ≡ canvas (ly * 1280 + lx)
unfolding shown_pixel
shown_pixel-address row_words lx ly canvas line in_x in_y =
    let some_line : 0 < row_words = omega (arith, line) in
    let short : ly < row_words = omega arith in
    let row = mul-add-div_right some_line (1280 - 1 - lx) ly in
    let column = mul-add-mod_self_right (1280 - 1 - lx) row_words ly ∙ mod-eq_of_lt short in
    ap canvas (omega (arith, row, column, div-eq_of_lt short))

stage_pixels-Painted :
    (row_words : ℕ) (canvas frame : Memory)
    → 600 ≤ row_words
    → Painted
        (SomeRound 1280 (λ lx. SomeRound 480 (λ ly a. a ≡ (1280 - 1 - lx) * row_words + ly)))
        (shown_pixel row_words canvas)
        frame
        (stage_pixels canvas row_words frame)
unfolding stage_pixels
stage_pixels-Painted row_words canvas frame line =
    for_each-Painted _ (shown_pixel row_words canvas) 1280 _
      (λ lx in_x frame.
        for_each-Painted _ (shown_pixel row_words canvas) 480 _
          (λ ly in_y frame.
            write-Painted (shown_pixel row_words canvas) frame _ _
              (shown_pixel-address row_words lx ly canvas line in_x in_y))
          frame)
      frame

-- The word of the panel for a pixel of the canvas.
scanned_word : ℕ → Memory → Memory
scanned_word row_words frame i = frame ((1280 - 1 - i % 1280) * row_words + i / 1280)

read_pixels-Painted :
    (row_words : ℕ) (frame canvas : Memory)
    → Painted
        (SomeRound 1280 (λ lx. SomeRound 480 (λ ly i. i ≡ ly * 1280 + lx)))
        (scanned_word row_words frame)
        canvas
        (read_pixels frame row_words canvas)
unfolding read_pixels scanned_word
read_pixels-Painted row_words frame canvas =
    for_each-Painted _ (scanned_word row_words frame) 1280 _
      (λ lx in_x canvas.
        for_each-Painted _ (scanned_word row_words frame) 480 _
          (λ ly in_y canvas.
            let column : (ly * 1280 + lx) % 1280 ≡ lx = omega arith in
            let row : (ly * 1280 + lx) / 1280 ≡ ly = omega arith in
            write-Painted (scanned_word row_words frame) canvas _ _ (rw (column, row) refl))
          canvas)
      canvas

Painted-value :
    {P : ℕ → Type 0} {value before after : Memory} (a : ℕ)
    → Painted P value before after
    → P a
    → after a ≡ value a
Painted-value a painted p = elim (painted a) [ inl (q, e) ↦ e | inr (free, e) ↦ absurd (free p) ]

read-stage :
    (row_words i : ℕ) (canvas frame other : Memory)
    → 600 ≤ row_words
    → i < 1280 * 480
    → read_pixels (stage_pixels canvas row_words frame) row_words other i ≡ canvas i
unfolding scanned_word
read-stage row_words i canvas frame other line below =
    let lx = i % 1280 in
    let ly = i / 1280 in
    let in_x : lx < 1280 = omega arith in
    let in_y : ly < 480 = omega arith in
    Painted-value i (read_pixels-Painted row_words (stage_pixels canvas row_words frame) other)
      (lx, in_x, (ly, in_y, omega arith))
    ∙ Painted-value ((1280 - 1 - lx) * row_words + ly)
        (stage_pixels-Painted row_words canvas frame line) (lx, in_x, (ly, in_y, refl))
    ∙ shown_pixel-address row_words lx ly canvas line in_x in_y
    ∙ ap canvas (omega arith)

-- On a panel whose lines have at least 600 words: a canvas of 1280 by 480 pixels that was put on the
-- panel and is read back is the same canvas, pixel for pixel, whatever the buffers held.
pub read_scanout_into_canvas-stage_canvas_for_scanout :
    (row_words : ℕ) (canvas frame other : Memory)
    → 600 ≤ row_words
    → (staged : Memory) × (stage_canvas_for_scanout
          (1280 * 480)
          canvas
          row_words
          (row_words * 1280)
          frame
        ≡ some staged)
      × (read : Memory) × (read_scanout_into_canvas staged row_words other ≡ some read)
      × ((i : ℕ) → i < 1280 * 480 → read i ≡ canvas i)
unfolding stage_canvas_for_scanout read_scanout_into_canvas
read_scanout_into_canvas-stage_canvas_for_scanout row_words canvas frame other line = (
  stage_pixels canvas row_words frame,
  ground (arith, line),
  read_pixels (stage_pixels canvas row_words frame) row_words other,
  ground (arith, line),
  λ i below. read-stage row_words i canvas frame other line below,
)
