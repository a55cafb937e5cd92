-- ===== src/Tests/Menu.antt =====
-- src/deck_menu.cpp.
use nes_deck.Prelude.{
  ℕ, ◌+◌, ◌*◌, ◌%◌, ◌<◌, ◌≡◌, ◌≢◌, refl, arith, true, false, List, [], ◌∷◌, ◌++◌, All, some, none,
  Bytes, codes, map, length, equal,
}
use nes_deck.Catalog.Color.{
  RgbColor, rgb, pixel, is_xterm_color, palette_loop, xterm_color, same_color, parse_color,
  color_digits, color_of, nibble,
}
use nes_deck.Kernel.{stat_of}
use nes_deck.MenuState.Brightness.{refuses_brightness}
use nes_deck.Menu.Buttons.{menu_gamepad_command, back, confirm, leave}
use nes_deck.Menu.Buttons.Shift.{KeyEvent}
use nes_deck.Menu.Cover.{decode_cover, loaded}
use nes_deck.Menu.Cover.RoundTrip.{Layout, IsLayout, print_cover, decode_cover-print_cover}
use nes_deck.Menu.Cover.Tokens.{nothing, space, comment}
use nes_deck.Menu.Guard.{
  edge, check, Event, Ordered, accepted, fresh, IsSpaced, accept_edge, erase_old, recover_if_quiet,
}
use nes_deck.Menu.Guard.Spaced.{accepted-IsSpaced}
use nes_deck.Menu.Palette.{
  load_dashboard_palette, token_names, load_stat, load_opened, finish, palette_lines, after_turn,
  line_turn, fields_turn, role_turn, find_token, store_color, all_seen, icon_loop, icon_turn,
  valid_legacy_settings_icon,
}
use nes_deck.Catalog.Manifest.{getlines, strip_return, push_char}
use nes_deck.Text.{split_tabs, cut_tab, split_loop, is_absolute_path}
use nes_deck.Menu.Palette.Load.{Loads, load_dashboard_palette-Loads}
use nes_deck.Menu.Settings.{Distinct, nil, cons}
use nes_deck.Menu.Wifi.{WifiState, WifiTarget, ssid, key, delete, apply_all, valid_wifi_text}
use nes_deck.Menu.Wifi.Valid.{IsPlain, IsTyped, apply_all-valid}
use nes_deck.Prelude.Loops.{Memory}
use nes_deck.Menu.Scanout.{
  stage_canvas_for_scanout, read_scanout_into_canvas,
  read_scanout_into_canvas-stage_canvas_for_scanout,
}

-- Thirteen edges at once, and one more after a second of quiet.
abbrev flood : List Event
flood =
    edge 5
    ∷ edge 5
    ∷ edge 5
    ∷ edge 5
    ∷ edge 5
    ∷ edge 5
    ∷ edge 5
    ∷ edge 5
    ∷ edge 5
    ∷ edge 5
    ∷ edge 5
    ∷ edge 5
    ∷ edge 6
    ∷ check 900
    ∷ edge 1000
    ∷ check 2000
    ∷ edge 2000
    ∷ []

flood_run : length (accepted flood fresh []) ≡ 13
unfolding accepted accept_edge erase_old recover_if_quiet
flood_run = refl

flood-Ordered : Ordered 0 flood
flood-Ordered = (
  omega arith,
  (
    omega arith,
    (
      omega arith,
      (
        omega arith,
        (
          omega arith,
          (
            omega arith,
            (
              omega arith,
              (
                omega arith,
                (
                  omega arith,
                  (
                    omega arith,
                    (
                      omega arith,
                      (
                        omega arith,
                        (
                          omega arith,
                          (omega arith, (omega arith, (omega arith, (omega arith, tt)))),
                        ),
                      ),
                    ),
                  ),
                ),
              ),
            ),
          ),
        ),
      ),
    ),
  ),
)

accepted-IsSpaced_example : IsSpaced (accepted flood fresh [])
accepted-IsSpaced_example = accepted-IsSpaced flood flood-Ordered

-- Blanks with a comment.
abbrev blanks : Layout
blanks = record {
  first = [];
  second = 10 ∷ b'#' ∷ (codes "menu" ++ (10 ∷ []));
  third = 32 ∷ [];
  fourth = 10 ∷ [];
}

abbrev ink : RgbColor
ink = rgb 255 255 175

ink_xterm : is_xterm_color ink ≡ true
unfolding is_xterm_color palette_loop same_color xterm_color
ink_xterm = refl

menu_text : All (λ c. c ≢ 10) (codes "menu")
menu_text = (
  λ e. absurd (omega (arith, e)),
  (
    λ e. absurd (omega (arith, e)),
    (λ e. absurd (omega (arith, e)), (λ e. absurd (omega (arith, e)), tt)),
  ),
)

blanks-IsLayout : IsLayout blanks
blanks-IsLayout = record {
  first_blank = nothing;
  second_blank = space refl (comment (codes "menu") [] menu_text nothing);
  third_blank = space refl nothing;
  fourth_blank = space refl nothing;
  second_some = λ e. cc;
  third_some = λ e. cc;
  fourth_some = λ e. cc;
}

decode_cover-print_cover_example :
    decode_cover (print_cover blanks 2 1 (ink ∷ ink ∷ []))
    ≡ loaded (record { width = 2; height = 1; pixels = map pixel (ink ∷ ink ∷ []) })
decode_cover-print_cover_example =
    decode_cover-print_cover blanks 2 1 (ink ∷ ink ∷ []) blanks-IsLayout (omega arith) (omega arith)
      (omega arith) (omega arith) refl (ink_xterm, (ink_xterm, tt))

-- A line for each role, of one colour.
abbrev print_palette : List Bytes → Bytes
print_palette [] = []
print_palette (name ∷ names) = name ++ (9 ∷ (codes "#ffffaf" ++ (10 ∷ print_palette names)))

abbrev palette_text : Bytes
palette_text = print_palette token_names

palette_run :
    (load_dashboard_palette
      (codes "/etc/palette.tsv")
      (stat_of true 400)
      (some (palette_text, false))
      []).0
    ≡ none
unfolding load_dashboard_palette is_absolute_path load_stat load_opened finish palette_lines
    getlines after_turn line_turn strip_return fields_turn split_tabs equal role_turn find_token
    store_color parse_color color_digits color_of nibble push_char all_seen icon_loop icon_turn
    valid_legacy_settings_icon cut_tab split_loop
palette_run = refl

load_dashboard_palette-Loads_example : Loads (some (palette_text, false)) [] (
    load_dashboard_palette
      (codes "/etc/palette.tsv")
      (stat_of true 400)
      (some (palette_text, false))
      [])
load_dashboard_palette-Loads_example =
    load_dashboard_palette-Loads (codes "/etc/palette.tsv") (stat_of true 400)
      (some (palette_text, false)) []

-- The left shift goes down and up, the right one down.
abbrev shifting : List KeyEvent
shifting =
    record { code = 42; value = 1 }
    ∷ record { code = 42; value = 0 }
    ∷ record { code = 54; value = 1 }
    ∷ []

-- In a view that stands in front, a controller does nothing but leave it.
command_run : menu_gamepad_command (confirm + back) true false ≡ leave
unfolding menu_gamepad_command
command_run = refl

not_refused : refuses_brightness 255 10 ≡ false
unfolding refuses_brightness
not_refused = refl

abbrev systems : List Bytes
systems = codes "nes" ∷ codes "gb" ∷ []

systems-Distinct : Distinct systems
systems-Distinct = cons (codes "nes") (λ e. cc, tt) (cons (codes "gb") tt nil)

abbrev empty_form : WifiState
empty_form = record {
  ssid_text = [];
  passphrase_text = [];
  field = ssid;
  uppercase = false;
  symbols = false;
  status = [];
}

-- The characters on the keys that are shown.
abbrev shown_keys : List ℕ
shown_keys = codes "qwerty"

abbrev touches : List (List ℕ × WifiTarget)
touches = (shown_keys, key 1) ∷ (shown_keys, delete) ∷ (shown_keys, key 5) ∷ []

empty_form-IsTyped : IsTyped empty_form
empty_form-IsTyped = record {
  ssid_short = omega arith;
  passphrase_short = omega arith;
  ssid_plain = tt;
  passphrase_plain = tt;
}

shown_keys-IsPlain : All IsPlain shown_keys
shown_keys-IsPlain = (
  (omega arith, omega arith),
  (
    (omega arith, omega arith),
    (
      (omega arith, omega arith),
      ((omega arith, omega arith), ((omega arith, omega arith), ((omega arith, omega arith), tt))),
    ),
  ),
)

apply_all-valid_example :
    (valid_wifi_text (apply_all touches empty_form).ssid_text 0 32 ≡ true)
    × (valid_wifi_text (apply_all touches empty_form).passphrase_text 0 63 ≡ true)
apply_all-valid_example =
    apply_all-valid touches empty_form
      (shown_keys-IsPlain, (shown_keys-IsPlain, (shown_keys-IsPlain, tt))) empty_form-IsTyped

-- A canvas in which each pixel is another than its neighbours, on a panel of 640 words a line.
abbrev canvas_in_order : Memory
canvas_in_order i = i % 0x10000

read_scanout_into_canvas-stage_canvas_for_scanout_example :
    (staged : Memory) × (stage_canvas_for_scanout
        (1280 * 480)
        canvas_in_order
        640
        (640 * 1280)
        (λ a. 0)
      ≡ some staged)
    × (read : Memory) × (read_scanout_into_canvas staged 640 (λ i. 9) ≡ some read)
    × ((i : ℕ) → i < 1280 * 480 → read i ≡ canvas_in_order i)
read_scanout_into_canvas-stage_canvas_for_scanout_example =
    read_scanout_into_canvas-stage_canvas_for_scanout 640 canvas_in_order (λ a. 0) (λ i. 9)
      (omega arith)
