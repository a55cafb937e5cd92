-- ===== src/Lib.antt =====
-- Retro Deck: the launcher of a small game console on an embedded Linux display. The menu reads a
-- catalog of games and its own settings, starts an emulator for each system, and the emulators keep
-- cartridge memory, read controllers and draw. This library models the parts of it that decide, as
-- functions on bytes, numbers and explicit state.
--
-- The parts, with the code they are about (paths from the repository's root):
--   Sram        src/nes_sram.h: the run-length code of a cartridge's save memory.
--   Text        src/menu_text.cpp: trimming, UTF-8 validation, fallback display, fields by tabs.
--   Kernel      the system calls that the rest makes, as an interface with its laws; Kernel.Memory
--               is an instance that keeps them.
--   MenuIo      src/menu_io.cpp: the write loop `write_all`.
--   MenuState   src/menu_state.cpp: state files (Store), the volume (Number, Volume), the keymap,
--               and the numbers of the brightness.
--   Catalog     src/menu_catalog.cpp and src/menu_catalog.h: colours, ids, built-in entries, tape
--               and ROM checks (Tape, Rom), and the manifest.
--   Joypad      src/joypad_input.cpp: button mappings, keyboard state, event
--               names, and the slots of the players (Slots).
--   Runtime     src/deck_runtime.cpp: the queue of sound samples (Audio), the number of
--               resampled frames (Rate), the place of a frame on the display (Layout), the frames of
--               emulators on the turned panel (Framebuffer), pixels and the volume of the environment
--               (Environment).
--   Menu        src/deck_menu.cpp: the palette file (Palette), cover images (Cover), keys and
--               controllers (Buttons), the guard against a flood of input (Guard), the controls of
--               the settings and the choice of a system (Settings), the turned canvas on the panel
--               (Scanout), the command line (Options), and the Wi-Fi form (Wifi).
--   TenSeconds  src/ten_seconds_deck.cpp: the timer and its rounds, what is shown, and the touch screen.
--   Chiptune    src/chiptune_deck.cpp: the search for files (Scan), the playlist (Player), the stream
--               of the Vorbis decoder (Stream), titles (Names), letters (Glyphs) and the saving of the
--               volume (Volume).
-- Prelude holds the shared names, and Tests the runs and the instances of the theorems.
--
-- The catalog takes its fields from Text and validates ROMs by Kernel; MenuState and the volume of
-- Chiptune write through MenuIo. The palette and the covers of Menu take colours and lines from
-- Catalog, and an emulator reads from its environment the volume that MenuState keeps. A function
-- that reads or writes takes the disk and returns it with its result, in the order of the source's
-- calls; a descriptor stands for the path it was opened on. An error is a constructor for each kind
-- of message of the source, whose wording is left out. Pointers and out-parameters are results, and
-- a test of a pointer against null is left out, but for the codec of save memory. A framebuffer is
-- a function from addresses, in words, to words. What the decoders make of a file of music is a
-- parameter, by its path.
--
-- Fuel. A loop that walks an input has the input's length, and each turn takes at least one byte. A
-- loop on `read` or `write` has the bytes that are asked for and the signals that are still
-- pending, since a call makes progress, is interrupted by one of them or ends the loop. The search
-- for a temporary name has the 16 attempts of the source, or the 8 of the chiptune player, and a
-- loop over a playlist its length. The search for music has the levels of directories that are left
-- of the source's limit. The decoder of save memory recurs on its input. Where fuel could run out,
-- a constructor of the model's own says so: `stalled`, `out_of_fuel`; the readers of ROM headers
-- and of covers answer as for a short file.
--
-- Assumed: PATH_MAX is 4096 and NAME_MAX 255, the locale is "C" where `isspace`, `islower` and
-- `isdigit` are asked, `unsigned int` has 32 bits, and `stat` never gives a negative size. The laws
-- of the system calls are those of regular files that no other process changes meanwhile. The
-- stream of a manifest is given as the bytes that it reads and whether it is bad at the end, and so
-- is that of a palette. Times are those of a monotonic clock. Each call of the sound queue holds
-- its mutex, so that the two threads are a sequence of calls in any order. A `size_t` or a
-- `long` whose width matters is a number of `w` bits, for any `w`, and the `int` of an axis or of a
-- touch is a signed integer (Prelude.Integers).
--
-- Not modelled: the brightness device of src/menu_state.cpp, the event loop of controllers, the
-- network, the CHIP-8 player, the input of the chiptune player, and of the menu its touch targets,
-- its processes and its event loop, whose logic is not part of this library yet; drawing, the sound
-- device and the display protocol, which are calls of libraries; the terminal, a copy of another
-- project; the uploader and the scripts, in other languages.
mod Prelude
pub mod Sram
pub mod Text
pub mod Kernel
pub mod MenuIo
pub mod MenuState
pub mod Catalog
pub mod Joypad
pub mod Runtime
pub mod Menu
pub mod TenSeconds
pub mod Chiptune
mod Tests
