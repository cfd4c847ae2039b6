-- ===== src/Memory/Gdt.antt =====
-- kernel/memory/gdt.cpp: the descriptors of the segments. An encoded descriptor is a list of eight
-- bytes, the table the bytes of all.
pub mod Decode
mod Tests
use tinylittleos.Common.{
  ℕ, zero, suc, ◌+◌, ◌*◌, ◌/◌, ◌%◌, ◌^◌, List, [], ◌∷◌, ◌++◌, get_or, set, bit_or,
}

pub record GdtEntry : Type 0 where
  pub base : ℕ
  pub limit : ℕ
  pub access_byte : ℕ
  pub flags : ℕ

-- `gdt_entry`
unfoldable pub gdt_entry : GdtEntry → List ℕ
gdt_entry source =
    source.limit % 2 ^ 8
    ∷ source.limit / 2 ^ 8 % 2 ^ 8
    ∷ source.base % 2 ^ 8
    ∷ source.base / 2 ^ 8 % 2 ^ 8
    ∷ source.base / 2 ^ 16 % 2 ^ 8
    ∷ source.access_byte
    ∷ bit_or (source.limit / 2 ^ 16 % 2 ^ 4) (source.flags * 2 ^ 4) % 2 ^ 8
    ∷ source.base / 2 ^ 24 % 2 ^ 8
    ∷ []

unfoldable pub concat_gdt_entries : List GdtEntry → List ℕ
unfolding gdt_entry
concat_gdt_entries [] = []
concat_gdt_entries (e ∷ es) = gdt_entry e ++ concat_gdt_entries es

-- The entries of `gdt_arr`.
abbrev pub segments : (tss_size : ℕ) → List GdtEntry
segments tss_size =
    record { base = 0; limit = 0; access_byte = 0; flags = 0 }
    ∷ record { base = 0; limit = 0xFFFFF; access_byte = 0b10011010; flags = 0b1100 }
    ∷ record { base = 0; limit = 0xFFFFF; access_byte = 0b10010010; flags = 0b1100 }
    ∷ record { base = 0; limit = 0xFFFFF; access_byte = 0b11111010; flags = 0b1100 }
    ∷ record { base = 0; limit = 0xFFFFF; access_byte = 0b11110010; flags = 0b1100 }
    ∷ record { base = 0; limit = tss_size; access_byte = 0b10001001; flags = 0 }
    ∷ []

-- `init_gdt` enters the address of the task state.
unfoldable pub init_gdt : (tss_addr : ℕ) → List ℕ → List ℕ
unfolding set
init_gdt tss_addr gdt_arr =
    set
      (set (set (set gdt_arr 42 (tss_addr % 2 ^ 8)) 43 (tss_addr / 2 ^ 8 % 2 ^ 8)) 44
        (tss_addr / 2 ^ 16 % 2 ^ 8))
      47 (tss_addr / 2 ^ 24 % 2 ^ 8)
