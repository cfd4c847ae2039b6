-- ===== src/Memory/Kmem.antt =====
-- kernel/memory/page_allocator.cpp: `kmem_alloc_N` and `kmem_free_N`, which find a buddy by the
-- lists, grow the region by a buddy where there is none, and map its pages.
--
-- `Layout` holds what `init_page_allocator` sets once, `Kmem` what changes. `mem` is the kernel's
-- memory as 32-bit words by virtual address, without the buddies. Addresses are 32-bit numbers;
-- sums are cut to 32 bits once, at their end.
pub mod Lists
pub mod Address
pub mod Blocks
pub mod Release
pub mod Grow
pub mod Fresh
use tinylittleos.Common.{
  ℕ, zero, suc, ◌+◌, ◌-◌, ◌*◌, ◌/◌, ◌%◌, ◌^◌, bit_and, bit_or, Bool, true, false, not, ◌&&◌, List,
  [], ◌∷◌, ◌==◌, ltb, leb, if◌then◌else◌,
}
use tinylittleos.Common.Run.{Run, ok, fault, out_of_fuel, ◌>>=◌, ◌>>◌, kassert}
use tinylittleos.Memory.Buddy.{
  Size, k4, k8, k16, k32, Heap, null, head, update, set_next, Buddies, level, alloc, free,
}

pub record Layout : Type 0 where
  pub buddy_array : ℕ
  pub buddy_array_size : ℕ
  pub kmem_region_end : ℕ
  pub first_page_directory : ℕ

pub record Kmem : Type 0 where
  pub buddies : Buddies
  pub buddy_array_pos : ℕ
  pub kmem_phys_end : ℕ
  pub mem : ℕ → ℕ

-- `a - b` on `uint32_t`
abbrev pub sub_w : ℕ → ℕ → ℕ
sub_w a b = (a + (2 ^ 32 - b)) % 2 ^ 32

-- `phys_t`
abbrev pub from_kmem : ℕ → ℕ
from_kmem virt = sub_w virt 0xC0000000

abbrev pub to_virt : ℕ → ℕ
to_virt addr = (addr + 0xC0000000) % 2 ^ 32

abbrev pub align_page_down : ℕ → ℕ
align_page_down addr = addr / 2 ^ 12 * 2 ^ 12

abbrev pub align_page_up : ℕ → ℕ
align_page_up addr = (addr + 4095) % 2 ^ 32 / 2 ^ 12 * 2 ^ 12

-- The first part of `init_page_allocator`, from the end of the kernel and the amount of memory.
unfoldable pub init_layout : (kernel_end ram_amount first_page_directory : ℕ) → Layout
init_layout kernel_end ram_amount first_page_directory =
    let total_page_count = (ram_amount + 4095) % 2 ^ 32 / 2 ^ 12 in
    let total_buddy_count = (total_page_count + 127) / 2 ^ 7 in
    let total_buddy_page_count = (total_buddy_count + 63) / 2 ^ 6 in
    let buddy_memory_phys = align_page_up (from_kmem kernel_end) in
    let buddy_array = to_virt buddy_memory_phys in
    let buddy_array_end =
      (buddy_array + total_buddy_page_count * 2 ^ 12 + 32767) % 2 ^ 32 / 2 ^ 15 * 2 ^ 15 in
    let buddy_array_size = sub_w buddy_array_end buddy_array in
    let region_end = (buddy_memory_phys + buddy_array_size + total_page_count * 2 ^ 12) % 2 ^ 32 in
    record {
      buddy_array = buddy_array;
      buddy_array_size = buddy_array_size;
      kmem_region_end = if ltb 0x38000000 region_end then 0x38000000 else region_end;
      first_page_directory = first_page_directory;
    }

-- `N` is 2 to this power.
abbrev pub page_shift : Size → ℕ
page_shift k4 = 12
page_shift k8 = 13
page_shift k16 = 14
page_shift k32 = 15

-- `my_first_page + (index << 12)` in `alloc<N>`, for `buddy_array[pos]`.
abbrev pub block_address : Layout → Size → ℕ → ℕ → ℕ
block_address l size pos index =
    (l.buddy_array + l.buddy_array_size + pos * 2 ^ 19 + index * 2 ^ page_shift size) % 2 ^ 32

abbrev pub store : (ℕ → ℕ) → ℕ → ℕ → ℕ → ℕ
store mem a v x = if x == a then v else mem x

-- `memset` of `bytes` bytes, with `v` as a word.
abbrev pub fill : (ℕ → ℕ) → (start bytes v : ℕ) → ℕ → ℕ
fill mem start bytes v x = if leb start x && ltb x (start + bytes) then v else mem x

-- `buddy_alloc<N>`
unfoldable pub buddy_alloc : Layout → Size → Kmem → Run (ℕ × Kmem)
buddy_alloc l size k =
    let next = (level size k.buddies head).next in
    if next == null then ok (0, k) else do
      (index, b) ← alloc size next k.buddies
      let res = block_address l size (next - 2) index
      ok (res, record k { buddies = b; mem = fill k.mem res (2 ^ page_shift size) 0x41414141 })

-- The bitmap of a new buddy, after `memset` to 0xFF.
abbrev pub all_free : Size → List ℕ
all_free k4 = (2 ^ 32 - 1) ∷ (2 ^ 32 - 1) ∷ (2 ^ 32 - 1) ∷ (2 ^ 32 - 1) ∷ []
all_free k8 = (2 ^ 32 - 1) ∷ (2 ^ 32 - 1) ∷ []
all_free k16 = (2 ^ 32 - 1) ∷ []
all_free k32 = (2 ^ 16 - 1) ∷ []

-- The part of `kmem_buddy_new_no_alloc` for one size.
unfoldable pub push_new : Size → (this : ℕ) → Heap → Heap
push_new size this h =
    set_next (update h this (record { words = all_free size; prev = head; next = (h head).next }))
      head this

unfoldable pub kmem_buddy_new_no_alloc : Layout → Kmem → Run Kmem
unfolding push_new
kmem_buddy_new_no_alloc l k =
    let pos = k.buddy_array_pos in
    do
      kassert (ltb (pos * 64 % 2 ^ 32) l.buddy_array_size)
      ok (record k {
        buddy_array_pos = (pos + 1) % 2 ^ 32;
        buddies = record {
          k4 = push_new k4 (pos + 2) k.buddies.k4;
          k8 = push_new k8 (pos + 2) k.buddies.k8;
          k16 = push_new k16 (pos + 2) k.buddies.k16;
          k32 = push_new k32 (pos + 2) k.buddies.k32;
        };
      })

-- `kmem_free_N`
unfoldable pub kmem_free : Layout → Size → (ptr : ℕ) → Kmem → Run Kmem
kmem_free l size ptr k =
    let buddy_rel_pos = sub_w (sub_w ptr l.buddy_array) l.buddy_array_size in
    do
      kassert (bit_and buddy_rel_pos (2 ^ page_shift size - 1) == 0)
      let alloc_index = bit_and buddy_rel_pos 0x7FFFF / 2 ^ page_shift size
      b ← free size (buddy_rel_pos / 2 ^ 19 + 2) alloc_index k.buddies
      ok (record k { buddies = b })

-- `dir_entry & page_flag::present`
abbrev pub present : ℕ → Bool
present entry = not (bit_and entry 1 == 0)

-- `page_table[tab_index] = pte`, in the page table of a directory entry.
abbrev pub enter_page : (entry tab_index pte : ℕ) → Kmem → Kmem
enter_page entry tab_index pte k = record k {
  mem = store k.mem (to_virt (align_page_down entry) + tab_index * 4) pte;
}

-- The "normal path": a cleared page table becomes the directory entry at `dir`.
abbrev pub enter_table : (page_table dir pde_flags tab_index pte : ℕ) → Kmem → Kmem
enter_table page_table dir pde_flags tab_index pte k =
    let mem1 = store (fill k.mem page_table 4096 0) dir (bit_or (from_kmem page_table) pde_flags) in
    record k { mem = store mem1 (page_table + tab_index * 4) pte }

module _ (l : Layout) where
  -- `_map_page`, over the `kmem_alloc_4k` that it calls.
  unfoldable pub map_page : (Kmem → Run (ℕ × Kmem)) → (virt pde_flags pte pd : ℕ) → Kmem → Run Kmem
  map_page alloc_4k virt pde_flags pte pd k = do
    kassert (bit_and virt 0xFFF == 0)
    let dir = pd + virt / 2 ^ 22 * 4
    let tab_index = bit_and (virt / 2 ^ 12) 0x3FF
    if present (k.mem dir) then ok (enter_page (k.mem dir) tab_index pte k) else do
      (page_table, k1) ← alloc_4k k
      if not (present (k1.mem dir))
          then ok (enter_table page_table dir pde_flags tab_index pte k1)
          else do k2 ← kmem_free l k4 page_table k1; ok (enter_page (k2.mem dir) tab_index pte k2)

  -- The loop over the pages from `addr` to `end`.
  unfoldable pub map_pages : (Kmem → Run (ℕ × Kmem)) → (fuel addr end : ℕ) → Kmem → Run Kmem
  map_pages alloc_4k zero addr end k = if ltb addr end then fault out_of_fuel else ok k
  map_pages alloc_4k (suc fuel) addr end k =
      let rest = λ (k' : Kmem). map_pages alloc_4k fuel ((addr + 4096) % 2 ^ 32) end k' in
      if not (ltb addr end) then ok k else do
        k' ← map_page alloc_4k addr 3 (bit_or 3 (from_kmem addr)) l.first_page_directory k
        rest k'

  unfoldable pub kmem_buddy_new : (Kmem → Run (ℕ × Kmem)) → Kmem → Run Kmem
  kmem_buddy_new alloc_4k k = do
    k1 ← kmem_buddy_new_no_alloc l k
    let start = block_address l k4 (k1.buddy_array_pos - 1) 0
    k2 ← map_pages alloc_4k 128 start ((start + 2 ^ 19) % 2 ^ 32) k1
    kassert (to_virt k2.kmem_phys_end == start)
    let end = (k2.kmem_phys_end + 2 ^ 19) % 2 ^ 32
    kassert (ltb end l.kmem_region_end)
    ok (record k2 { kmem_phys_end = end })

  -- `kmem_alloc_N`; the fuel bounds how often `kmem_alloc_4k` is called within it.
  unfoldable pub kmem_alloc : (fuel : ℕ) → Size → Kmem → Run (ℕ × Kmem)
  kmem_alloc zero size k = fault out_of_fuel
  kmem_alloc (suc fuel) size k =
      let grow = kmem_buddy_new (kmem_alloc fuel k4) in
      do
        (result, k1) ← buddy_alloc l size k
        if not (result == 0) then ok (result, k1) else do
          k2 ← grow k1
          (result2, k3) ← buddy_alloc l size k2
          kassert (not (result2 == 0))
          ok (result2, k3)
