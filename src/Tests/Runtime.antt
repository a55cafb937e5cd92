-- ===== src/Tests/Runtime.antt =====
-- src/deck_runtime.cpp.
use nes_deck.Prelude.{
  ℕ, ◌%◌, ◌+◌, ◌*◌, ◌<◌, ◌≡◌, refl, arith, true, false, List, [], ◌∷◌, some, codes,
}
use nes_deck.Runtime.Audio.{Queue}
use nes_deck.Runtime.Audio.Spec.{Call, push, turn, fail, queued, lost_so_far, run_queue, run_fifo}
use nes_deck.Runtime.Audio.Window.{IsValid}
use nes_deck.Runtime.Audio.Refine.{view, run_queue_refines}
use nes_deck.Runtime.Environment.{read_volume_percent, volume_loop}
use nes_deck.Runtime.Rate.{sum, output_frames, all_frames, all_frames-exact}
use nes_deck.Runtime.Layout.{
  DeckScaledLayout, compute_scaled_layout, inside, IsLayout, compute_scaled_layout-IsLayout,
}
use nes_deck.Runtime.Framebuffer.{Framebuffer, draw_lines, draw_pixels}
use nes_deck.Runtime.Framebuffer.Rows.{draw_lines-draw_pixels}
use nes_deck.Runtime.Framebuffer.Mirror.{
  Same, Shown, rgb565, xrgb8888, indexed, present_all, present_all-Same,
}

-- A queue of four samples that has wrapped around and holds two.
abbrev wrapped : Queue
wrapped = record {
  thread_started = true;
  stopping = false;
  worker_failed = false;
  head = 3;
  size = 2;
  dropped = 0;
  buffer = 8 ∷ 0 ∷ 0 ∷ 7 ∷ [];
}

wrapped-IsValid : IsValid wrapped
wrapped-IsValid = record { head_in = omega arith; size_in = omega arith; counted = omega arith }

-- More than there is room for, what is held and lost then, a chunk, a failure and a refused call.
abbrev calls : List Call
calls =
    push (1 ∷ 2 ∷ 3 ∷ [])
    ∷ queued
    ∷ lost_so_far
    ∷ turn
    ∷ push (4 ∷ [])
    ∷ turn
    ∷ fail
    ∷ push (5 ∷ [])
    ∷ []

run_queue_refines_example : run_queue 3 calls wrapped ≡ run_fifo 4 3 calls (view wrapped)
run_queue_refines_example = run_queue_refines 3 calls wrapped wrapped-IsValid

compute_scaled_layout-IsLayout_example :
    (l : DeckScaledLayout) × (compute_scaled_layout 256 240 ≡ some l) × IsLayout 256 240 l
compute_scaled_layout-IsLayout_example =
    compute_scaled_layout-IsLayout 256 240 (omega arith) (omega arith) (omega arith) (omega arith)

-- A leading zero is accepted here, where the state file may not have one.
volume_run : read_volume_percent (some (codes "042")) ≡ (true, 42)
unfolding read_volume_percent volume_loop
volume_run = refl

-- Two calls of a sixtieth of a second at 32 kHz, for a device at 48 kHz.
all_frames_run : all_frames 32 32000 48000 (533 ∷ 534 ∷ []) 0 ≡ (1600, 16000)
unfolding all_frames output_frames
all_frames_run = refl

all_frames-exact_example :
    let (made, r') = all_frames 32 32000 48000 (533 ∷ 534 ∷ []) 0 in
    (32000 * made + r' ≡ sum (533 ∷ 534 ∷ []) * 48000 + 0) × (r' < 32000)
all_frames-exact_example =
    all_frames-exact 32 32000 48000 0 (533 ∷ 534 ∷ []) (omega arith) (omega arith) (omega arith) (
      record { few = omega arith; made = omega arith },
      (record { few = omega arith; made = omega arith }, tt),
    )

-- The layout of a frame of 160 by 144 pixels.
abbrev frame_layout : DeckScaledLayout
frame_layout = record { x = 400; y = 24; width = 480; height = 432; scale = 3 }

-- The pixel at a row and a column.
abbrev gradient : ℕ → ℕ → ℕ
gradient y x = (y * 256 + x) % 0x10000

draw_lines-draw_pixels_example :
    draw_lines 640 frame_layout 160 144 gradient (λ a. 0) (800 * 640 + 200)
    ≡ draw_pixels 640 frame_layout 160 144 gradient (λ a. 0) (800 * 640 + 200)
unfolding compute_scaled_layout inside
draw_lines-draw_pixels_example =
    draw_lines-draw_pixels 640 160 144 frame_layout gradient (λ a. 0) (omega arith) refl
      (800 * 640 + 200)

abbrev panel : Framebuffer
panel = record {
  mapped = true;
  map_size = 640 * 1280 * 2;
  row_words = 640;
  last_source_width = 0;
  last_source_height = 0;
  exit_hint = false;
  frame_size = 640 * 1280;
  frame = λ a. 7;
  memory = λ a. 7;
}

-- Two frames of different sizes, one whose lines are too short, and one of an emulator with a
-- palette.
abbrev shown_frames : List Shown
shown_frames =
    rgb565 gradient 256 240 512
    ∷ rgb565 gradient 256 240 500
    ∷ xrgb8888 gradient 160 144 640
    ∷ indexed (λ y x. (y + x) % 3) 64 32 64 (0xffffff ∷ 0xff0000 ∷ [])
    ∷ []

present_all-Same_example :
    Same (present_all shown_frames panel).frame (present_all shown_frames panel).memory
present_all-Same_example =
    present_all-Same shown_frames panel
      (record { line = omega arith; plain = refl; same = λ a. refl })
