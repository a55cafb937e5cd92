-- ===== src/Chiptune.antt =====
-- src/chiptune_deck.cpp, the player of chiptunes and Ogg Vorbis files: the stream that the Vorbis
-- decoder reads (Stream), the letters (Glyphs), names of files and what is shown of them (Names), the
-- search for files (Scan) the playlist (Player) and the saving of the volume (Volume).
pub mod Stream
pub mod Glyphs
pub mod Names
pub mod Scan
pub mod Player
pub mod Volume
