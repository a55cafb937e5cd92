-- ===== src/MenuState.antt =====
-- src/menu_state.cpp: the volume, brightness and keymap that outlive a session, each in a small
-- file of its own. Messages are not modelled: an error is the branch that wrote one. A function
-- that returns through pointers returns a result here, and the disk that it leaves.
pub mod Result
pub mod Number
pub mod Store
pub mod Volume
pub mod Keymap
pub mod Brightness
