-- ===== src/Memory/Multiboot.antt =====
-- kernel/memory/multiboot.cpp: the amount of memory from the map that the boot loader gives. The map
-- is the list of its entries, of 24 bytes each; an address and a length have 64 bits, `ram_amount` 32.
pub mod Amount
mod Tests
use tinylittleos.Common.{
  ℕ, zero, suc, ◌+◌, ◌*◌, ◌/◌, ◌%◌, ◌^◌, Bool, not, ◌==◌, ltb, if◌then◌else◌, List, [], ◌∷◌,
}
use tinylittleos.Common.Run.{Run, ok, fault, out_of_bounds, kassert, ◌>>=◌, ◌>>◌}

pub record MemoryMapEntry : Type 0 where
  pub addr : ℕ
  pub len : ℕ

-- The loop over the map, of `left` bytes more; a length that is no multiple of 24 reads one more entry.
unfoldable pub scan : (mmap_length i : ℕ) → List MemoryMapEntry → (ram_amount : ℕ) → Run ℕ
scan mmap_length i [] ram_amount = if ltb i mmap_length then fault out_of_bounds else ok ram_amount
scan mmap_length i (e ∷ es) ram_amount =
    let rest =
      scan mmap_length ((i + 24) % 2 ^ 32) es
        (if e.addr == 0x100000 then e.len % 2 ^ 32 else ram_amount) in
    if ltb i mmap_length then rest else ok ram_amount

unfoldable pub read_multiboot_data : (flags mmap_length magic : ℕ) → List MemoryMapEntry → Run ℕ
unfolding scan
read_multiboot_data flags mmap_length magic map_ = do
  kassert (magic == 0x2BADB002)
  kassert (not (flags / 2 ^ 6 % 2 == 0))
  ram_amount ← scan mmap_length 0 map_ 0
  kassert (not (ram_amount == 0))
  ok ram_amount
