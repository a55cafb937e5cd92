-- ===== src/Runtime/Framebuffer/Rows.antt =====
-- What the loops line by line paint: the same copies, in the same colors.
use nes_deck.Prelude.{ℕ, zero, suc, ◌+◌, ◌-◌, ◌*◌, ◌≤◌, ◌<◌, ◌≡◌, ap, ◌∙◌, arith, some}
use nes_deck.Prelude.Loops.{
  for_each, for_each-Painted, Memory, write, write-Painted, Painted, Painted-same, Painted-unique,
  SomeRound,
}
use nes_deck.Runtime.Framebuffer.{
  address, physical_height, draw_pixels, duplicate, draw_line, draw_lines,
}
use nes_deck.Runtime.Framebuffer.Pixels.{copy_address, AllCopies, draw_pixels-Painted}
use nes_deck.Runtime.Framebuffer.Place.{Fits, belongs, belongs-address, compute_scaled_layout-Fits}
use nes_deck.Runtime.Layout.{DeckScaledLayout, compute_scaled_layout}
use native.Mathlib.Nat.{add-mul}

-- The loops on a pointer, with the pointer as arithmetic.
duplicate-writes :
    (count color destination : ℕ) (frame : Memory)
    → duplicate count color (destination, frame)
      ≡ (destination + count, for_each count (λ i m. write m (destination + i) color) frame)
unfolding duplicate for_each
duplicate-writes zero color destination frame = ap (λ d. (d, frame)) (omega arith)
duplicate-writes (suc n) color destination frame =
    let e : destination + n + 1 ≡ destination + suc n = omega arith in
    ap (λ (d, m). (d + 1, write m d color)) (duplicate-writes n color destination frame)
    ∙ ap
        (λ d. (
          d,
          write (for_each n (λ i m. write m (destination + i) color) frame) (destination + n) color,
        ))
        e

line-writes :
    (scale height destination : ℕ) (column : ℕ → ℕ) (frame : Memory)
    → for_each height (λ y. duplicate scale (column y)) (destination, frame) ≡ (
      destination + height * scale,
      for_each height
          (λ y. for_each scale (λ dy m. write m (destination + y * scale + dy) (column y)))
          frame,
    )
unfolding for_each
line-writes scale zero destination column frame = ap (λ d. (d, frame)) (omega arith)
line-writes scale (suc n) destination column frame =
    let next : n + 1 ≡ suc n = omega arith in
    let more : destination + n * scale + scale ≡ destination + suc n * scale =
      omega (arith, add-mul n 1 scale, ap (λ k. k * scale) next) in
    ap (duplicate scale (column n)) (line-writes scale n destination column frame)
    ∙ duplicate-writes scale (column n) (destination + n * scale) _
    ∙ ap
        (λ d. (
          d,
          for_each scale (λ i m. write m (destination + n * scale + i) (column n))
              (for_each n
                (λ y. for_each scale (λ dy m. write m (destination + y * scale + dy) (column y)))
                frame),
        ))
        more

draw_line-writes :
    (scale height destination : ℕ) (column : ℕ → ℕ) (frame : Memory)
    → draw_line destination scale height column frame
      ≡ for_each height
          (λ y. for_each scale (λ dy m. write m (destination + y * scale + dy) (column y)))
          frame
unfolding draw_line
draw_line-writes scale height destination column frame =
    ap (λ p. p.1) (line-writes scale height destination column frame)

module _ (row_words : ℕ) (l : DeckScaledLayout) where
  -- The copies in the order in which the lines have them.
  abbrev TurnedCopies : ℕ → ℕ → ℕ → Type 0
  TurnedCopies width height = SomeRound width (λ x. SomeRound l.scale (λ dx.
      SomeRound height (λ y. SomeRound l.scale (λ dy a. a ≡ copy_address row_words l x y dx dy))))

  module _ (color : ℕ → ℕ → ℕ) (width height : ℕ) (f : Fits row_words width height l) where
    write_copy :
        (x y dx dy : ℕ)
        → x < width
        → y < height
        → dx < l.scale
        → dy < l.scale
        → (frame : Memory)
        → Painted
            (λ a. a ≡ copy_address row_words l x y dx dy)
            (belongs row_words l color)
            frame
            (write frame
              (address row_words (physical_height - 1 - l.x - x * l.scale - dx) l.y
                + y * l.scale
                + dy)
              (color y x))
    write_copy x y dx dy in_x in_y small_x small_y frame =
        let line : physical_height - 1 - l.x - x * l.scale - dx
            ≡ physical_height - 1 - (l.x + (x * l.scale + dx)) =
          omega arith in
        let e : address row_words (physical_height - 1 - l.x - x * l.scale - dx) l.y
              + y * l.scale
              + dy
            ≡ copy_address row_words l x y dx dy =
          omega (arith, ap (λ n. n * row_words) line) in
        rw e (
          write-Painted (belongs row_words l color) frame (copy_address row_words l x y dx dy)
            (color y x)
            (belongs-address row_words l color width height x y dx dy f in_x in_y small_x small_y))

    draw_lines-Painted :
        (frame : Memory)
        → Painted
            (TurnedCopies width height)
            (belongs row_words l color)
            frame
            (draw_lines row_words l width height color frame)
    unfolding draw_lines
    draw_lines-Painted frame =
        for_each-Painted _ (belongs row_words l color) width _
          (λ x in_x frame.
            for_each-Painted _ (belongs row_words l color) l.scale _
              (λ dx small_x frame. line-Painted x dx in_x small_x frame) frame)
          frame
      where
        line-Painted :
            (x dx : ℕ)
            → x < width
            → dx < l.scale
            → (frame : Memory)
            → Painted
                (SomeRound height
                  (λ y. SomeRound l.scale (λ dy a. a ≡ copy_address row_words l x y dx dy)))
                (belongs row_words l color)
                frame
                (draw_line
                  (address row_words (physical_height - 1 - l.x - x * l.scale - dx) l.y)
                  l.scale
                  height
                  (λ y. color y x)
                  frame)
        line-Painted x dx in_x small_x frame =
            rw
              (draw_line-writes l.scale height
                (address row_words (physical_height - 1 - l.x - x * l.scale - dx) l.y)
                (λ y. color y x) frame)
              (for_each-Painted _ (belongs row_words l color) height _
                (λ y in_y frame.
                  for_each-Painted _ (belongs row_words l color) l.scale _
                    (λ dy small_y frame. write_copy x y dx dy in_x in_y small_x small_y frame)
                    frame)
                frame)

to_lines :
    (row_words : ℕ) (l : DeckScaledLayout) (width height a : ℕ)
    → AllCopies row_words l width height a
    → TurnedCopies row_words l width height a
to_lines row_words l width height a (y, in_y, (x, in_x, (dy, small_y, (dx, small_x, e)))) =
    (x, in_x, (dx, small_x, (y, in_y, (dy, small_y, e))))

to_pixels :
    (row_words : ℕ) (l : DeckScaledLayout) (width height a : ℕ)
    → TurnedCopies row_words l width height a
    → AllCopies row_words l width height a
to_pixels row_words l width height a (x, in_x, (dx, small_x, (y, in_y, (dy, small_y, e)))) =
    (y, in_y, (x, in_x, (dy, small_y, (dx, small_x, e))))

-- On a panel whose lines have at least 600 words, for each frame that has a layout: the loops that
-- draw a line of the panel at a time leave the same word at every address as the loops that draw
-- pixel by pixel, whatever the buffer held.
pub draw_lines-draw_pixels :
    (row_words width height : ℕ) (l : DeckScaledLayout) (color : ℕ → ℕ → ℕ) (frame : Memory)
    → 600 ≤ row_words
    → compute_scaled_layout width height ≡ some l
    → (a : ℕ)
    → draw_lines row_words l width height color frame a
      ≡ draw_pixels row_words l width height color frame a
draw_lines-draw_pixels row_words width height l color frame line e a =
    let fits = compute_scaled_layout-Fits row_words width height l line e in
    Painted-unique (to_pixels row_words l width height) (to_lines row_words l width height)
      (draw_lines-Painted row_words l color width height fits frame)
      (draw_pixels-Painted row_words l color width height fits frame) a

-- The lines paint what the pixels paint.
pub draw_lines-AllCopies :
    (row_words width height : ℕ) (l : DeckScaledLayout) (color : ℕ → ℕ → ℕ) (frame : Memory)
    → Fits row_words width height l
    → Painted
        (AllCopies row_words l width height)
        (belongs row_words l color)
        frame
        (draw_lines row_words l width height color frame)
draw_lines-AllCopies row_words width height l color frame fits =
    Painted-same (to_pixels row_words l width height) (to_lines row_words l width height)
      (draw_lines-Painted row_words l color width height fits frame)
