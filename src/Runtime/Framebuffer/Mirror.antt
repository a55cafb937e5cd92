-- ===== src/Runtime/Framebuffer/Mirror.antt =====
-- After each frame the memory of the panel and the staging buffer agree.
use nes_deck.Prelude.{
  ℕ, ◌*◌, ◌≤◌, ◌≡◌, refl, sym, ap, ◌∙◌, inl, inr, Bool, true, false, not, ◌||◌, Bool-cases, Option,
  none, some, List, [], ◌∷◌, length, ltb, ◌==◌, ◌!=◌, if◌then◌else◌,
}
use nes_deck.Prelude.Loops.{Memory, Painted}
use nes_deck.Runtime.Environment.{rgb888_to_565}
use nes_deck.Runtime.Framebuffer.{
  Framebuffer, FrameError, Begun, begun, refused, clear_for, begin_layout, begin_frame,
  publish_lines, draw_exit_hint, not_open, publish_frame, present_begun, present_rgb565,
  present_xrgb8888, present_indexed, palette_color,
}
use nes_deck.Runtime.Framebuffer.Pixels.{AllCopies, draw_pixels-Painted}
use nes_deck.Runtime.Framebuffer.Place.{Fits, compute_scaled_layout-Fits}
use nes_deck.Runtime.Framebuffer.Publish.{Published, publish_lines-Painted, Copies-Published}
use nes_deck.Runtime.Framebuffer.Rows.{draw_lines-AllCopies}
use nes_deck.Runtime.Layout.{DeckScaledLayout, compute_scaled_layout}

abbrev pub Same : Memory → Memory → Type 0
Same frame memory = (a : ℕ) → memory a ≡ frame a

-- A change of what is published, and its publication.
publish_lines-Same :
    (row_words : ℕ) (l : DeckScaledLayout) (P : ℕ → Type 0) (value before after memory : Memory)
    → Painted P value before after
    → ((a : ℕ) → P a → Published row_words l a)
    → Same before memory
    → Same after (publish_lines row_words l after memory)
publish_lines-Same row_words l P value before after memory drawn within same a =
    elim (publish_lines-Painted row_words l after memory a) [
      | inl (here, e) ↦ e
      | inr (free, e) ↦ elim (drawn a) [
        | inl (here, f) ↦ absurd (free (within a here))
        | inr (other, f) ↦ e ∙ same a ∙ sym f
      ]
    ]

-- What a frame needs: lines that are long enough, no hint over the picture, and agreement.
pub record Mirrors (fb : Framebuffer) : Type 0 where
  pub line : 600 ≤ fb.row_words
  pub plain : fb.exit_hint ≡ false
  pub same : Same fb.frame fb.memory

clear_for-Mirrors :
    (width height : ℕ) (fb : Framebuffer) → Mirrors fb → Mirrors (clear_for width height fb)
unfolding clear_for
clear_for-Mirrors width height fb m =
    elim (Bool-cases (width != fb.last_source_width || height != fb.last_source_height)) [
      | inl e ↦ rw e (record { line = m.line; plain = m.plain; same = λ a. refl })
      | inr e ↦ rw e m
    ]

-- A begun frame has its layout.
abbrev Begins : ℕ → ℕ → Begun → Type 0
Begins width height (refused e) = Unit
Begins width height (begun l fb) = (compute_scaled_layout width height ≡ some l) × Mirrors fb

begin_layout-Begins :
    (width height : ℕ) (o : Option DeckScaledLayout) (fb : Framebuffer)
    → compute_scaled_layout width height ≡ o
    → Mirrors fb
    → Begins width height (begin_layout width height o fb)
unfolding begin_layout
begin_layout-Begins width height none fb e m = tt
begin_layout-Begins width height (some l) fb e m =
    elim (Bool-cases (fb.frame_size * 2 != fb.map_size)) [
      | inl short ↦ rw short tt
      | inr enough ↦ rw enough (e, clear_for-Mirrors width height fb m)
    ]

choose-Begins :
    (width height : ℕ) (b : Bool) (p q : Begun)
    → Begins width height p
    → Begins width height q
    → Begins width height (if b then p else q)
choose-Begins width height true p q h k = h
choose-Begins width height false p q h k = k

begin_frame-Begins :
    (width height : ℕ) (fb : Framebuffer)
    → Mirrors fb
    → Begins width height (begin_frame width height fb)
unfolding begin_frame
begin_frame-Begins width height fb m =
    choose-Begins width height (not fb.mapped) (refused not_open) _ tt
      (begin_layout-Begins width height _ fb refl m)

-- A way to draw that paints the copies of the pixels.
abbrev Draws : ℕ → ℕ → (ℕ → DeckScaledLayout → Memory → Memory) → Type 0
Draws width height draw =
    (row_words : ℕ) (l : DeckScaledLayout) (frame : Memory)
    → Fits row_words width height l
    → (value : Memory) × Painted (AllCopies row_words l width height) value frame
        (draw row_words l frame)

publish_frame-Mirrors :
    (width height : ℕ) (draw : ℕ → DeckScaledLayout → Memory → Memory) (l : DeckScaledLayout)
    (fb : Framebuffer)
    → Draws width height draw
    → compute_scaled_layout width height ≡ some l
    → Mirrors fb
    → Mirrors (publish_frame l (record fb { frame = draw fb.row_words l fb.frame }))
unfolding publish_frame
publish_frame-Mirrors width height draw l fb draws e m =
    let fits = compute_scaled_layout-Fits fb.row_words width height l m.line e in
    let (value, drawn) = draws fb.row_words l fb.frame fits in
    let frame = draw fb.row_words l fb.frame in
    let memory = publish_lines fb.row_words l frame fb.memory in
    record {
      line = m.line;
      plain = m.plain;
      same = λ a.
          ap (λ b. (if b then draw_exit_hint fb.row_words memory else memory) a) m.plain
          ∙ publish_lines-Same fb.row_words l (AllCopies fb.row_words l width height) value fb.frame
              frame fb.memory drawn (Copies-Published fb.row_words width height l fits) m.same a;
    }

present_begun-Mirrors :
    (width height : ℕ) (draw : ℕ → DeckScaledLayout → Memory → Memory) (b : Begun)
    (fb : Framebuffer)
    → Draws width height draw
    → Begins width height b
    → Mirrors fb
    → Mirrors (present_begun draw b fb).1
unfolding present_begun
present_begun-Mirrors width height draw (refused e) fb draws begins m = m
present_begun-Mirrors width height draw (begun l fb') fb draws (e, m') m =
    publish_frame-Mirrors width height draw l fb' draws e m'

choose-Mirrors :
    (b : Bool) (p q : Option FrameError × Framebuffer)
    → Mirrors p.1
    → Mirrors q.1
    → Mirrors (if b then p else q).1
choose-Mirrors true p q h k = h
choose-Mirrors false p q h k = k

-- The frames that an emulator shows.
pub data Shown : Type 0 where
  rgb565 xrgb8888 : (ℕ → ℕ → ℕ) → ℕ → ℕ → ℕ → Shown
  indexed : (ℕ → ℕ → ℕ) → ℕ → ℕ → ℕ → List ℕ → Shown

unfoldable pub present : Shown → Framebuffer → Option FrameError × Framebuffer
present (rgb565 row width height pitch) fb = present_rgb565 row width height pitch fb
present (xrgb8888 row width height pitch) fb = present_xrgb8888 row width height pitch fb
present (indexed row width height pitch palette) fb =
    present_indexed row width height pitch palette fb

unfoldable pub present_all : List Shown → Framebuffer → Framebuffer
present_all [] fb = fb
present_all (shown ∷ more) fb = present_all more (present shown fb).1

present-Mirrors : (shown : Shown) (fb : Framebuffer) → Mirrors fb → Mirrors (present shown fb).1
unfolding present present_rgb565 present_xrgb8888 present_indexed
present-Mirrors (rgb565 row width height pitch) fb m =
    choose-Mirrors (ltb pitch (width * 2)) _ _ m (
      present_begun-Mirrors width height _ _ fb
        (λ row_words l frame fits.
          (_, draw_lines-AllCopies row_words width height l row frame fits))
        (begin_frame-Begins width height fb m) m)
present-Mirrors (xrgb8888 row width height pitch) fb m =
    choose-Mirrors (ltb pitch (width * 4)) _ _ m (
      present_begun-Mirrors width height _ _ fb
        (λ row_words l frame fits. (
          _,
          draw_pixels-Painted row_words l (λ y x. rgb888_to_565 (row y x)) width height fits frame,
        ))
        (begin_frame-Begins width height fb m) m)
present-Mirrors (indexed row width height pitch palette) fb m =
    choose-Mirrors (length palette == 0 || ltb pitch width) _ _ m (
      present_begun-Mirrors width height _ _ fb
        (λ row_words l frame fits. (
          _,
          draw_pixels-Painted row_words l (λ y x. rgb888_to_565 (palette_color palette (row y x)))
              width height fits frame,
        ))
        (begin_frame-Begins width height fb m) m)

-- On a panel whose lines have at least 600 words, without the hint, and from a state in which the
-- memory that is shown and the staging buffer agree: they agree after any frames, of any formats and
-- sizes, accepted or refused, although only the drawn part is copied.
pub present_all-Same :
    (frames : List Shown) (fb : Framebuffer)
    → Mirrors fb
    → Same (present_all frames fb).frame (present_all frames fb).memory
unfolding present_all
present_all-Same [] fb m = m.same
present_all-Same (shown ∷ more) fb m =
    present_all-Same more (present shown fb).1 (present-Mirrors shown fb m)
