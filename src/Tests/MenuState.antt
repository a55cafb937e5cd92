-- ===== src/Tests/MenuState.antt =====
-- src/menu_state.cpp and src/menu_io.cpp, on the kernel in memory.
use nes_deck.Prelude.{◌≤◌, ◌≡◌, ◌≢◌, ◌↔◌, ◌⊎◌, refl, ap, arith, some, none, Bytes, codes, equal}
use nes_deck.Kernel.Memory.{
  MemoryDisk, memory, memory-KernelLaws, create_in, open_in, stat_in, read_in, write_in,
}
use nes_deck.MenuIo.{write_all, write_loop, write_turn, WroteAll, write_all-WroteAll}
use nes_deck.Text.{is_absolute_path}
use nes_deck.MenuState.Number.{to_string, parse_volume_percent, parse_volume_percent_iff}
use nes_deck.MenuState.Result.{ok, err, StateError}
use nes_deck.MenuState.Store.{
  save_state_value, load_state_value, parent_directory, before_last_slash, temporary_name,
  create_turn, find_temporary, fill_temporary, read_turn, read_loop, read_checked, load_opened,
}
use nes_deck.MenuState.Store.Atomic.{Saved, save_state_value-Saved}
use nes_deck.MenuState.Store.Load.{Loaded, load_state_value-Loaded}
use nes_deck.MenuState.Volume.{save_volume_state, load_volume_state, returning, use_volume}
use nes_deck.MenuState.Volume.Laws.{LoadedVolume, load_volume_state-LoadedVolume}
use nes_deck.MenuState.Volume.RoundTrip.{load-save}
use nes_deck.MenuState.Keymap.{load_keymap_state, LoadedKeymap, load_keymap_state-LoadedKeymap}

abbrev path : Bytes
path = codes "/s/volume"

abbrev blank_bytes : Bytes
blank_bytes = codes "35\n"

-- No file, and two signals on their way.
abbrev blank : MemoryDisk
blank = record { files = λ p. none; pending = 2 }

directory_run : parent_directory path ≡ codes "/s"
unfolding parent_directory before_last_slash
directory_run = refl

saved_run : (save_volume_state memory path 35 blank).1.files path ≡ some (codes "35\n")
unfolding save_volume_state save_state_value find_temporary create_turn fill_temporary write_all
    write_loop write_turn create_in write_in to_string temporary_name equal is_absolute_path
saved_run = refl

save_ok : (save_volume_state memory path 35 blank).0 ≡ ok tt
unfolding save_volume_state save_state_value find_temporary create_turn fill_temporary write_all
    write_loop write_turn create_in write_in to_string temporary_name equal is_absolute_path
save_ok = refl

abbrev written_disk : MemoryDisk
written_disk = (save_volume_state memory path 35 blank).1

saved_pair : save_volume_state memory path 35 blank ≡ (ok tt, written_disk)
saved_pair = ap (λ o. (o, written_disk)) save_ok

-- An old file, with a word in it.
abbrev old_disk : MemoryDisk
old_disk = record { files = λ p. some (codes "off\n"); pending = 1 }

old_run : (load_volume_state memory path 70 old_disk).0 ≡ err StateError.cannot_allocate
unfolding load_volume_state load_state_value load_opened read_checked read_loop read_turn use_volume
    returning save_volume_state save_state_value find_temporary create_turn open_in stat_in read_in
    create_in equal is_absolute_path
old_run = refl

write_all-WroteAll_example :
    WroteAll memory path blank_bytes blank (write_all memory path blank_bytes blank)
write_all-WroteAll_example = write_all-WroteAll memory memory-KernelLaws path blank_bytes blank

save_state_value-Saved_example :
    Saved memory path (codes "35") blank (save_state_value memory path (codes "35") blank)
    × ((save_state_value memory path (codes "35") blank).0 ≢ err StateError.out_of_fuel)
save_state_value-Saved_example =
    save_state_value-Saved memory memory-KernelLaws path (codes "35") blank

load_state_value-Loaded_example :
    Loaded memory path written_disk (load_state_value memory path written_disk)
load_state_value-Loaded_example = load_state_value-Loaded memory memory-KernelLaws path written_disk

load_volume_state-LoadedVolume_example :
    LoadedVolume memory path blank (load_volume_state memory path 70 blank)
load_volume_state-LoadedVolume_example =
    load_volume_state-LoadedVolume memory memory-KernelLaws path 70 blank

load-save_example :
    ((e : StateError) × ((load_state_value memory path written_disk).0 ≡ err e))
    ⊎ (load_volume_state memory path 70 written_disk
        ≡ (ok 35, (load_state_value memory path written_disk).1))
load-save_example =
    load-save memory memory-KernelLaws path 35 70 blank written_disk (omega arith) saved_pair

load_keymap_state-LoadedKeymap_example :
    LoadedKeymap memory path blank (load_keymap_state memory path blank)
load_keymap_state-LoadedKeymap_example =
    load_keymap_state-LoadedKeymap memory memory-KernelLaws path blank

parse_volume_percent_iff_example :
    (parse_volume_percent (codes "070") ≡ some 70) ↔ ((70 ≤ 100) × (codes "070" ≡ to_string 70))
parse_volume_percent_iff_example = parse_volume_percent_iff (codes "070") 70
