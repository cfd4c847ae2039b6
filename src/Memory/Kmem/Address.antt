-- ===== src/Memory/Kmem/Address.antt =====
-- kernel/memory/page_allocator.cpp: the addresses of blocks. `alloc<N>` computes an address from a
-- buddy and a block, `kmem_free_N` the buddy and the block from the address.
use tinylittleos.Common.{
  ℕ, ◌+◌, ◌-◌, ◌*◌, ◌/◌, ◌%◌, ◌^◌, ◌<◌, ◌≤◌, ◌≡◌, ◌&&◌, arith, ◌==◌, leb, ltb,
}
use tinylittleos.Memory.Buddy.{Size, k4, k8, k16, k32, Buddies}
use tinylittleos.Memory.Buddy.Words.{width}
use tinylittleos.Memory.Buddy.Levels.{bit}
use tinylittleos.Memory.Buddy.Coherent.{overlaps}
use tinylittleos.Memory.Kmem.{Layout, init_layout, page_shift, block_address}

abbrev pub base : Layout → ℕ
base l = l.buddy_array + l.buddy_array_size

-- The buddy and the 4k page of an address.
abbrev pub buddy_at : Layout → ℕ → ℕ
buddy_at l addr = (addr - base l) / 2 ^ 19 + 2

abbrev pub page_at : Layout → ℕ → ℕ
page_at l addr = (addr - base l) % 2 ^ 19 / 2 ^ 12

-- 1 if the page of the address is free.
abbrev pub page_bit : Layout → Buddies → ℕ → ℕ
page_bit l b addr = bit b k4 (buddy_at l addr) (page_at l addr)

abbrev pub bytes : Size → ℕ
bytes size = 2 ^ page_shift size

module _ (l : Layout) (pos n : ℕ) (room : base l + n * 2 ^ 19 ≤ 2 ^ 32) (hi : pos < n) where
  pub block_offset :
      (size : Size) (index : ℕ)
      → index < width size
      → block_address l size pos index ≡ base l + pos * 2 ^ 19 + index * bytes size
  block_offset k4 index lt = omega arith
  block_offset k8 index lt = omega arith
  block_offset k16 index lt = omega arith
  block_offset k32 index lt = omega arith

  -- The pages of the block are those from its address on.
  pub in_block :
      (size : Size) (index addr : ℕ)
      → index < width size
      → base l ≤ addr
      → ((buddy_at l addr == pos + 2) && overlaps size index k4 (page_at l addr)) ≡ (
          leb (block_address l size pos index) addr
          && ltb addr (block_address l size pos index + bytes size))
  in_block k4 index addr lt le = ground (arith, block_offset k4 index lt)
  in_block k8 index addr lt le = ground (arith, block_offset k8 index lt)
  in_block k16 index addr lt le = ground (arith, block_offset k16 index lt)
  in_block k32 index addr lt le = ground (arith, block_offset k32 index lt)

-- What `init_page_allocator` sets makes the buddies begin at a multiple of 32k, if these addresses
-- are below 4G.
pub base-init_layout :
    (kernel_end ram_amount first_page_directory : ℕ)
    → 0xC0000000 ≤ kernel_end
    → kernel_end + ram_amount / 2 ^ 24 * 2 ^ 12 + 2 ^ 16 < 2 ^ 32
    → base (init_layout kernel_end ram_amount first_page_directory) % 2 ^ 15 ≡ 0
unfolding init_layout
base-init_layout kernel_end ram_amount first_page_directory kernel room = omega arith
