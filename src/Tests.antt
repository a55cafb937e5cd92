-- ===== src/Tests.antt =====
-- Runs of the definitions on concrete inputs, and the theorems applied there.
mod Sram
mod Text
mod MenuState
mod Catalog
mod Joypad
mod Runtime
mod Menu
mod TenSeconds
mod Chiptune
mod Options
