-- ===== src/Runtime.antt =====
-- src/deck_runtime.cpp, the library that the emulators share: the queue of sound samples, the place
-- of a frame on the screen, and what it takes from the environment.
pub mod Audio
pub mod Layout
pub mod Framebuffer
pub mod Rate
pub mod Environment
