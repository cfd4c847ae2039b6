-- ===== src/Memory/Multiboot/Tests.antt =====
-- kernel/memory/multiboot.cpp with 640 KiB of low memory and 127 MiB above the first mebibyte.
use tinylittleos.Common.{◌≡◌, refl, List, [], ◌∷◌, arith}
use tinylittleos.Common.Run.{ok, fault, assert_failed}
use tinylittleos.Memory.Multiboot.{MemoryMapEntry, read_multiboot_data}
use tinylittleos.Memory.Multiboot.Amount.{read_multiboot_data_lem}

abbrev memory_map : List MemoryMapEntry
memory_map = record { addr = 0; len = 0xA0000 } ∷ record { addr = 0x100000; len = 0x7F00000 } ∷ []

read_multiboot_data_lem_example : read_multiboot_data 64 48 0x2BADB002 memory_map ≡ ok 0x7F00000
read_multiboot_data_lem_example = read_multiboot_data_lem 64 memory_map refl (omega arith)

no_map : read_multiboot_data 0 48 0x2BADB002 memory_map ≡ fault assert_failed
unfolding read_multiboot_data
no_map = refl
