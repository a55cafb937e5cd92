-- ===== src/Menu.antt =====
-- The logic of the menu, src/deck_menu.cpp, that draws nothing: what a control or a key does, the
-- guard against a controller that floods the menu, the text fields of the Wi-Fi form, the palette
-- file and the cover images.
pub mod Settings
pub mod Wifi
pub mod Guard
pub mod Buttons
pub mod Cover
pub mod Palette
pub mod Scanout
pub mod Options
