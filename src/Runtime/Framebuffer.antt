-- ===== src/Runtime/Framebuffer.antt =====
-- `DeckFramebuffer` of src/deck_runtime.cpp on an open framebuffer, without Wayland: an emulator's
-- frame is drawn, scaled and turned, into a staging buffer, and the drawn part is then copied to the
-- memory that the panel shows. Both are given by their 16-bit words; `row_words` is the length of a
-- line of the panel in words. An emulator's frame is given by the words of its rows.
pub mod Place
pub mod Pixels
pub mod Rows
pub mod Publish
pub mod Mirror
use nes_deck.Prelude.{
  ℕ, zero, suc, ◌+◌, ◌-◌, ◌*◌, ◌/◌, ◌≡◌, Bool, true, false, not, ◌&&◌, ◌||◌, Option, none, some,
  ltb, leb, ◌==◌, ◌!=◌, if◌then◌else◌, List, length, get_or,
}
use nes_deck.Prelude.Loops.{for_each, Memory, write}
use nes_deck.Runtime.Environment.{rgb888_to_565}
use nes_deck.Runtime.Layout.{DeckScaledLayout, compute_scaled_layout}

abbrev pub physical_height : ℕ
physical_height = 1280

pub record Framebuffer : Type 0 where
  -- Whether `memory_` is mapped.
  pub mapped : Bool
  pub map_size : ℕ
  pub row_words : ℕ
  pub last_source_width : ℕ
  pub last_source_height : ℕ
  pub exit_hint : Bool
  pub frame_size : ℕ
  pub frame : Memory
  pub memory : Memory

pub data FrameError : Type 0 where
  not_open does_not_fit no_staging invalid_frame : FrameError

-- Where a word of a turned line lies.
abbrev pub address : ℕ → ℕ → ℕ → ℕ
address row_words physical_row physical_column = physical_row * row_words + physical_column

-- A frame of another size than the last begins on black.
unfoldable pub clear_for : ℕ → ℕ → Framebuffer → Framebuffer
clear_for width height fb =
    if width != fb.last_source_width || height != fb.last_source_height
    then record fb {
      frame = λ a. 0;
      memory = λ a. 0;
      last_source_width = width;
      last_source_height = height;
    }
    else fb

pub data Begun : Type 0 where
  begun : DeckScaledLayout → Framebuffer → Begun
  refused : FrameError → Begun

unfoldable pub begin_layout : ℕ → ℕ → Option DeckScaledLayout → Framebuffer → Begun
begin_layout width height none fb = refused does_not_fit
begin_layout width height (some layout) fb =
    if fb.frame_size * 2 != fb.map_size
    then refused no_staging
    else begun layout (clear_for width height fb)

unfoldable pub begin_frame : ℕ → ℕ → Framebuffer → Begun
begin_frame width height fb =
    if not fb.mapped
    then refused not_open
    else begin_layout width height (compute_scaled_layout width height) fb

unfoldable pub draw_scaled_pixel : ℕ → DeckScaledLayout → ℕ → ℕ → ℕ → Memory → Memory
draw_scaled_pixel row_words layout source_x source_y color =
    let left = layout.x + source_x * layout.scale in
    let top = layout.y + source_y * layout.scale in
    for_each layout.scale (λ y. for_each layout.scale (λ x frame.
      write frame (address row_words (physical_height - 1 - (left + x)) (top + y)) color))

-- The loops over a frame that draw it pixel by pixel; `color` is by row and column.
unfoldable pub draw_pixels : ℕ → DeckScaledLayout → ℕ → ℕ → (ℕ → ℕ → ℕ) → Memory → Memory
draw_pixels row_words layout width height color =
    for_each height (λ y. for_each width (λ x. draw_scaled_pixel row_words layout x y (color y x)))

-- A loop on the pointer `destination` and the frame: a color is written `count` times.
unfoldable pub duplicate : ℕ → ℕ → ℕ × Memory → ℕ × Memory
duplicate count color =
    for_each count (λ i (destination, frame). (destination + 1, write frame destination color))

-- One line of the panel, from a column of the source.
unfoldable pub draw_line : ℕ → ℕ → ℕ → (ℕ → ℕ) → Memory → Memory
draw_line destination scale height column frame =
    (for_each height (λ source_y. duplicate scale (column source_y)) (destination, frame)).1

-- The loops that draw a frame a line of the panel at a time.
unfoldable pub draw_lines : ℕ → DeckScaledLayout → ℕ → ℕ → (ℕ → ℕ → ℕ) → Memory → Memory
draw_lines row_words layout width height color = for_each width (λ source_x.
    let first_physical_row = physical_height - 1 - layout.x - source_x * layout.scale in
    for_each layout.scale (λ duplicate_x.
      draw_line (address row_words (first_physical_row - duplicate_x) layout.y) layout.scale height
        (λ source_y. color source_y source_x)))

-- `memcpy` of words to the same place of another memory.
unfoldable pub copy_words : ℕ → ℕ → Memory → Memory → Memory
copy_words offset count from =
    for_each count (λ i memory. write memory (offset + i) (from (offset + i)))

-- The copies of `publish_frame`, line by line.
unfoldable pub publish_lines : ℕ → DeckScaledLayout → Memory → Memory → Memory
publish_lines row_words layout frame =
    let first_physical_row = physical_height - layout.x - layout.width in
    for_each layout.width (λ row.
      copy_words (address row_words (first_physical_row + row) layout.y) layout.height frame)

-- `fill_logical_rect` of the hint, at a place that is not negative.
unfoldable pub fill_logical_rect : ℕ → ℕ → ℕ → ℕ → ℕ → ℕ → Memory → Memory
fill_logical_rect row_stride x y width height color = for_each width (λ i pixels.
    if leb physical_height (x + i)
    then pixels
    else for_each height
        (λ j pixels.
          if ltb (y + j) 480
          then write pixels (address row_stride (physical_height - 1 - (x + i)) (y + j)) color
          else pixels)
        pixels)

-- A cross of two diagonals of cells: a rim around each, then each cell.
unfoldable pub draw_exit_hint : ℕ → Memory → Memory
draw_exit_hint row_stride pixels =
    let cross : ℕ → ℕ → ℕ → Memory → Memory = λ rim size color. for_each 9 (λ step pixels.
      fill_logical_rect row_stride (20 + (8 - step) * 4 - rim) (20 + step * 4 - rim) size size color
        (fill_logical_rect row_stride (20 + step * 4 - rim) (20 + step * 4 - rim) size size color
          pixels)) in
    if ltb row_stride 600 then pixels else cross 0 4 0xffff (cross 2 8 0 pixels)

unfoldable pub publish_frame : DeckScaledLayout → Framebuffer → Framebuffer
publish_frame layout fb =
    let memory = publish_lines fb.row_words layout fb.frame fb.memory in
    record fb { memory = if fb.exit_hint then draw_exit_hint fb.row_words memory else memory }

-- What is drawn once a frame has begun, by a way to draw.
unfoldable pub present_begun :
    (ℕ → DeckScaledLayout → Memory → Memory) → Begun → Framebuffer → Option FrameError × Framebuffer
present_begun draw (refused e) fb = (some e, fb)
present_begun draw (begun layout fb') fb =
    (none, publish_frame layout (record fb' { frame = draw fb'.row_words layout fb'.frame }))

unfoldable pub present_rgb565 :
    (ℕ → ℕ → ℕ) → ℕ → ℕ → ℕ → Framebuffer → Option FrameError × Framebuffer
present_rgb565 row width height pitch fb =
    if ltb pitch (width * 2)
    then (some invalid_frame, fb)
    else present_begun (λ row_words layout. draw_lines row_words layout width height row)
        (begin_frame width height fb) fb

unfoldable pub present_xrgb8888 :
    (ℕ → ℕ → ℕ) → ℕ → ℕ → ℕ → Framebuffer → Option FrameError × Framebuffer
present_xrgb8888 row width height pitch fb =
    if ltb pitch (width * 4)
    then (some invalid_frame, fb)
    else present_begun
        (λ row_words layout.
          draw_pixels row_words layout width height (λ y x. rgb888_to_565 (row y x)))
        (begin_frame width height fb) fb

-- The color of an index of the palette.
abbrev pub palette_color : List ℕ → ℕ → ℕ
palette_color palette index = if ltb index (length palette) then get_or palette index 0 else 0

unfoldable pub present_indexed :
    (ℕ → ℕ → ℕ) → ℕ → ℕ → ℕ → List ℕ → Framebuffer → Option FrameError × Framebuffer
present_indexed row width height pitch palette fb =
    if length palette == 0 || ltb pitch width
    then (some invalid_frame, fb)
    else present_begun
        (λ row_words layout.
          draw_pixels row_words layout width height
            (λ y x. rgb888_to_565 (palette_color palette (row y x))))
        (begin_frame width height fb) fb
