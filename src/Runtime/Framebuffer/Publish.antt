-- ===== src/Runtime/Framebuffer/Publish.antt =====
-- What `publish_frame` copies, and that all that is drawn is copied.
use nes_deck.Prelude.{ℕ, ◌+◌, ◌-◌, ◌*◌, ◌≡◌, refl, ap, ◌∙◌, arith}
use nes_deck.Prelude.Loops.{for_each-Painted, Memory, write-Painted, Painted, SomeRound}
use nes_deck.Runtime.Framebuffer.{address, physical_height, copy_words, publish_lines}
use nes_deck.Runtime.Framebuffer.Pixels.{AllCopies}
use nes_deck.Runtime.Framebuffer.Place.{Fits, copy-lt}
use nes_deck.Runtime.Layout.{DeckScaledLayout}

-- The words of the published part of the panel.
abbrev pub Published : ℕ → DeckScaledLayout → ℕ → Type 0
Published row_words l = SomeRound l.width (λ row.
    SomeRound l.height
      (λ i a. a ≡ address row_words (physical_height - l.x - l.width + row) l.y + i))

pub publish_lines-Painted :
    (row_words : ℕ) (l : DeckScaledLayout) (frame memory : Memory)
    → Painted (Published row_words l) frame memory (publish_lines row_words l frame memory)
unfolding publish_lines copy_words
publish_lines-Painted row_words l frame memory =
    for_each-Painted _ frame l.width _
      (λ row in_row memory.
        for_each-Painted _ frame l.height _ (λ i in_i memory. write-Painted frame memory _ _ refl)
          memory)
      memory

-- What is drawn lies in the published part.
pub Copies-Published :
    (row_words width height : ℕ) (l : DeckScaledLayout)
    → Fits row_words width height l
    → (a : ℕ) → AllCopies row_words l width height a
    → Published row_words l a
Copies-Published row_words width height l f a
      (y, in_y, (x, in_x, (dy, small_y, (dx, small_x, e)))) =
    let across = copy-lt x dx width l.scale in_x small_x in
    let along = copy-lt y dy height l.scale in_y small_y in
    let row = l.width - 1 - (x * l.scale + dx) in
    let turned : physical_height - 1 - (l.x + (x * l.scale + dx))
        ≡ physical_height - l.x - l.width + row =
      omega (arith, across, f.in_width, f.scaled_width) in
    (
      row,
      omega (arith, across, f.scaled_width),
      (
        y * l.scale + dy,
        omega (arith, along, f.scaled_height),
        e ∙ omega (arith, ap (λ n. n * row_words) turned),
      ),
    )
