-- ===== src/Memory/Slab.antt =====
-- kernel/memory/slab.hpp: `untyped_slab_allocator<N>`, objects of one size in pages that begin with
-- a bitset of the free ones. A slab is named by the address of its page, 0 is null. The page
-- that `kmem_alloc_pages` returns for a new slab is a parameter of `allocate`.
pub mod Allocate
pub mod New
pub mod Beyond
pub mod Free
mod Tests
use tinylittleos.Common.{
  ℕ, ◌+◌, ◌-◌, ◌*◌, ◌/◌, ◌^◌, ◌%◌, Bool, true, false, not, ◌==◌, ltb, if◌then◌else◌,
}
use tinylittleos.Common.Run.{Run, ok, ◌>>=◌}
use tinylittleos.Ds.Bitset.{
  Bitset, set_bit, clear_bit, find_bit, set_all_until, clear_all, all_clear_until,
}

-- The size of `slab` in a page of the given size, for objects of `n` bytes.
unfoldable pub get_metadata_size : (n page_size : ℕ) → ℕ
get_metadata_size n page_size = 4 + (page_size / n + 31) / 32 * 4

unfoldable pub waste_pct : (n page_size : ℕ) → ℕ
waste_pct n page_size =
    if ltb page_size n
    then 1000
    else 100 * (page_size - (page_size - get_metadata_size n page_size) / n * n) / page_size

unfoldable pub get_page_size : (n : ℕ) → ℕ
unfolding waste_pct
get_page_size n =
    let w1 = waste_pct n 4096 in
    let w2 = waste_pct n 8192 in
    let w3 = waste_pct n 16384 in
    let w4 = waste_pct n 32768 in
    if ltb (w4 + 5) w3
    then 32768
    else if ltb (w3 + 5) w2
    then 16384
    else if ltb (w2 + 5) w1
    then 8192
    else 4096

unfoldable pub num_objects_in_page : (n page_size : ℕ) → ℕ
num_objects_in_page n page_size = (page_size - get_metadata_size n page_size) / n

pub record Slab : Type 0 where
  pub m_bits : Bitset
  pub m_next : ℕ

pub record Slabs : Type 0 where
  pub m_free_list : ℕ
  pub slabs : ℕ → Slab

abbrev pub update : (ℕ → Slab) → ℕ → Slab → ℕ → Slab
update slabs s v q = if q == s then v else slabs q

module _ (n page_size : ℕ) where
  -- "need new slab"
  unfoldable pub new_slab : (page : ℕ) → Slabs → Run Slabs
  unfolding num_objects_in_page
  new_slab page a = do
    bits ← clear_all (a.slabs page).m_bits
    bits' ← set_all_until bits (num_objects_in_page n page_size)
    ok (record a {
      m_free_list = page;
      slabs = update a.slabs page (record { m_bits = bits'; m_next = 0 });
    })

  -- The rest of `allocate`, from the first slab of the free list.
  unfoldable pub take_object : Slabs → Run (ℕ × Slabs)
  unfolding num_objects_in_page
  take_object a =
      let s = a.m_free_list in
      let available_bit = find_bit (a.slabs s).m_bits in
      do
        bits ← clear_bit (a.slabs s).m_bits available_bit
        full ← all_clear_until bits (num_objects_in_page n page_size)
        ok (
          (s + get_metadata_size n page_size + n * available_bit) % 2 ^ 32,
          record a {
            m_free_list = if full then (a.slabs s).m_next else s;
            slabs = update a.slabs s (record (a.slabs s) { m_bits = bits });
          },
        )

  unfoldable pub allocate : Run ℕ → Slabs → Run (ℕ × Slabs)
  unfolding new_slab take_object
  allocate kmem_alloc_pages a =
      if not (a.m_free_list == 0)
      then take_object a
      else do page ← kmem_alloc_pages; a' ← new_slab page a; take_object a'

  unfoldable pub free : (ptr : ℕ) → Slabs → Run Slabs
  unfolding num_objects_in_page
  free ptr a =
      let s = ptr / page_size * page_size in
      let bit = (ptr - s - get_metadata_size n page_size) / n in
      do
        full ← all_clear_until (a.slabs s).m_bits (num_objects_in_page n page_size)
        bits ← set_bit (a.slabs s).m_bits bit
        ok (record a {
          m_free_list = if full then s else a.m_free_list;
          slabs = update a.slabs s (record {
            m_bits = bits;
            m_next = if full then a.m_free_list else (a.slabs s).m_next;
          });
        })
