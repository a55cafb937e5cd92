-- ===== src/Tests/Chiptune.antt =====
-- src/chiptune_deck.cpp.
use nes_deck.Prelude.Integers.{negsuc}
use nes_deck.Prelude.{
  some, none, ◌==◌, ◌≡◌, refl, arith, true, List, [], ◌∷◌, ◌++◌, Bytes, codes, equal, drop,
  if◌then◌else◌,
}
use nes_deck.Chiptune.Names.{
  base_name, before_last, from_last, clipped, uppercase_ascii, supported_extension, lower_extension,
}
use nes_deck.Chiptune.Names.Clip.{Clips, clipped-Clips}
use nes_deck.Chiptune.Player.{
  Decoded, unplayable, tracks, vorbis, Player, new_player, change_random_file,
}
use nes_deck.Chiptune.Player.Shuffle.{Elsewhere, change_random_file-Elsewhere}
use nes_deck.Chiptune.Scan.{
  Entries, nil, entry, regular, directory, skipped, scan_chiptunes, scan_names, scan_node,
  sorted_names, insert, not_after,
}
use nes_deck.Chiptune.Scan.Search.{Finds, scan_chiptunes-Finds}
use nes_deck.Chiptune.Stream.{vorbis_memory_read, vorbis_memory_seek, step_from, seek_to, seek_end}
use nes_deck.Chiptune.Stream.Whole.{Reads, read_all, opened, read_all-Reads}
use nes_deck.Kernel.Memory.{MemoryDisk, memory, memory-KernelLaws, create_in, open_in, write_in}
use nes_deck.MenuState.Number.{to_string}
use nes_deck.Chiptune.Volume.{
  save_player_volume, save_volume_at, save_volume_in, volume_temporary, volume_turn, volume_suffix,
  save_volume_into, fill_volume, end_volume,
}
use nes_deck.MenuState.Store.{before_last_slash, step_unless, step_always, write_outcome}
use nes_deck.MenuIo.{write_all, write_loop, write_turn}
use nes_deck.Chiptune.Volume.Atomic.{VolumeSaved, save_player_volume-VolumeSaved}

title_run : base_name (codes "/music/c64.d/last_ninja-2.gbs") ≡ codes "last ninja 2"
unfolding base_name before_last from_last
title_run = refl

clipped_run : clipped (codes "Ünreal_tune (live)") 10 ≡ codes "NREAL T..."
unfolding clipped uppercase_ascii
clipped_run = refl

clipped-Clips_example : Clips (codes "Über_tune") 5 (clipped (codes "Über_tune") 5)
clipped-Clips_example = clipped-Clips (codes "Über_tune") 5

-- A directory with a hidden file, an empty one, one that no decoder knows and one level below.
abbrev music : Entries
music = entry (codes "b.NSF") (regular 40000) (
    entry (codes ".a.nsf") (regular 3) (
      entry (codes "empty.vgm") (regular 0) (
        entry (codes "a")
          (directory
            (entry (codes "tune.ogg") (regular 100) (entry (codes "cover.png") (regular 5) nil)))
          (entry (codes "link.ay") skipped nil))))

scan_run : scan_chiptunes 5 (codes "/m") music [] ≡ codes "/m/a/tune.ogg" ∷ codes "/m/b.NSF" ∷ []
unfolding scan_chiptunes scan_names scan_node sorted_names insert not_after supported_extension
    lower_extension from_last equal
scan_run = refl

scan_chiptunes-Finds_example : Finds 5 (codes "/m") music (scan_chiptunes 5 (codes "/m") music [])
scan_chiptunes-Finds_example = scan_chiptunes-Finds 5 (codes "/m") music

-- The first is no music, the second has tracks of which the first does not start, the third and the
-- last can be played.
abbrev playlist : List Bytes
playlist = codes "/0" ∷ codes "/1" ∷ codes "/2" ∷ codes "/3" ∷ []

abbrev decoders : Bytes → Decoded
decoders path =
    if equal path (codes "/1")
    then tracks 3 (λ t. t == 1)
    else if equal path (codes "/2")
    then tracks 2 (λ t. true)
    else if equal path (codes "/3")
    then vorbis true
    else unplayable

abbrev stopped_player : Player
stopped_player = new_player 42 4

change_random_file-Elsewhere_example :
    Elsewhere playlist decoders 0 (change_random_file playlist decoders (new_player 42 4)).1
unfolding new_player equal
change_random_file-Elsewhere_example =
    change_random_file-Elsewhere playlist decoders (new_player 42 4) 2 (omega arith) (omega arith)
      (ground arith) refl

seek_run : (vorbis_memory_seek (negsuc 1) seek_end (opened (codes "tune"))).1.offset ≡ 2
unfolding vorbis_memory_seek seek_to step_from
seek_run = refl

read_all-Reads_example :
    let (copied, s) = read_all 32 ((1, 2) ∷ (0, 9) ∷ []) (opened (codes "OggS!")) in
    let (items, more, s') = vorbis_memory_read 32 2 4 s in
    (copied ++ drop s.offset (codes "OggS!") ≡ codes "OggS!") × Reads 2 4 s items more s'
read_all-Reads_example =
    read_all-Reads 32 (codes "OggS!") ((1, 2) ∷ (0, 9) ∷ []) 2 4 (omega arith) (omega arith)
      (omega arith)

-- Two signals are pending, and the directory stands for its own descriptor.
abbrev volume_disk : MemoryDisk
volume_disk = record {
  files = λ p. if equal p (codes "/state") then some [] else none;
  pending = 2;
}

abbrev volume_path : Bytes
volume_path = codes "/state/volume"

named_path : volume_path ≡ [] → ⊥
named_path e = cc

save_player_volume-VolumeSaved_example :
    VolumeSaved memory volume_path
      (to_string 35 ++ b'\n' ∷ [])
      volume_disk
      (save_player_volume memory volume_path 35 volume_disk)
save_player_volume-VolumeSaved_example =
    save_player_volume-VolumeSaved memory memory-KernelLaws volume_path 35 volume_disk named_path

volume_run : (save_player_volume memory volume_path 35 volume_disk).0 ≡ true
unfolding save_player_volume save_volume_at save_volume_in volume_temporary volume_turn
    volume_suffix save_volume_into fill_volume end_volume before_last_slash step_unless step_always
    write_outcome write_all write_loop write_turn create_in open_in write_in equal to_string
volume_run = refl
