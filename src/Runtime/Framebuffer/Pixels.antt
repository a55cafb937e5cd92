-- ===== src/Runtime/Framebuffer/Pixels.antt =====
-- What the loops over the pixels paint: the copies of every source pixel, in its color.
use nes_deck.Prelude.{ℕ, ◌+◌, ◌-◌, ◌*◌, ◌<◌, ◌≡◌, arith}
use nes_deck.Prelude.Loops.{for_each-Painted, Memory, write, write-Painted, Painted, SomeRound}
use nes_deck.Runtime.Framebuffer.{address, physical_height, draw_scaled_pixel, draw_pixels}
use nes_deck.Runtime.Framebuffer.Place.{Fits, belongs, belongs-address}
use nes_deck.Runtime.Layout.{DeckScaledLayout}

module _ (row_words : ℕ) (l : DeckScaledLayout) where
  -- The address of one copy of a pixel.
  abbrev pub copy_address : ℕ → ℕ → ℕ → ℕ → ℕ
  copy_address x y dx dy =
      address row_words (physical_height - 1 - (l.x + (x * l.scale + dx)))
        (l.y + (y * l.scale + dy))

  -- The addresses of the copies of one pixel, and of all.
  abbrev pub Copies : ℕ → ℕ → ℕ → Type 0
  Copies x y = SomeRound l.scale (λ dy. SomeRound l.scale (λ dx a. a ≡ copy_address x y dx dy))

  abbrev pub AllCopies : ℕ → ℕ → ℕ → Type 0
  AllCopies width height = SomeRound height (λ y. SomeRound width (λ x. Copies x y))

  module _ (color : ℕ → ℕ → ℕ) (width height : ℕ) (f : Fits row_words width height l) where
    draw_scaled_pixel-Painted :
        (x y : ℕ)
        → x < width
        → y < height
        → (frame : Memory)
        → Painted
            (Copies x y)
            (belongs row_words l color)
            frame
            (draw_scaled_pixel row_words l x y (color y x) frame)
    unfolding draw_scaled_pixel
    draw_scaled_pixel-Painted x y in_x in_y frame =
        for_each-Painted _ (belongs row_words l color) l.scale _
          (λ dy small_y frame.
            for_each-Painted _ (belongs row_words l color) l.scale _
              (λ dx small_x frame. write_copy x y dx dy in_x in_y small_x small_y frame) frame)
          frame
      where
        write_copy :
            (x y dx dy : ℕ)
            → x < width
            → y < height
            → dx < l.scale
            → dy < l.scale
            → (frame : Memory)
            → Painted
                (λ a. a ≡ copy_address x y dx dy)
                (belongs row_words l color)
                frame
                (write frame
                  (address row_words
                    (physical_height - 1 - (l.x + x * l.scale + dx))
                    (l.y + y * l.scale + dy))
                  (color y x))
        write_copy x y dx dy in_x in_y small_x small_y frame =
            let across : l.x + x * l.scale + dx ≡ l.x + (x * l.scale + dx) = omega arith in
            let along : l.y + y * l.scale + dy ≡ l.y + (y * l.scale + dy) = omega arith in
            rw (across, along)
              (write-Painted (belongs row_words l color) frame (copy_address x y dx dy) (color y x)
                (belongs-address row_words l color width height x y dx dy f in_x in_y small_x
                  small_y))

    pub draw_pixels-Painted :
        (frame : Memory)
        → Painted
            (AllCopies width height)
            (belongs row_words l color)
            frame
            (draw_pixels row_words l width height color frame)
    unfolding draw_pixels
    draw_pixels-Painted frame =
        for_each-Painted _ (belongs row_words l color) height _
          (λ y in_y frame.
            for_each-Painted _ (belongs row_words l color) width _
              (λ x in_x frame. draw_scaled_pixel-Painted x y in_x in_y frame) frame)
          frame
