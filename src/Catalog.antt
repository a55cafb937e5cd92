-- ===== src/Catalog.antt =====
-- src/menu_catalog.cpp and src/menu_catalog.h: the game list of the menu, the colours of its
-- entries, the tests on ROM files and the manifest that the list is read from.
pub mod Color
pub mod Tape
pub mod Rom
pub mod Entry
pub mod Manifest
