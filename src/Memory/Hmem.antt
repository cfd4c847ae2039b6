-- ===== src/Memory/Hmem.antt =====
-- kernel/memory/page_allocator.cpp: `hmem_alloc_page`, `hmem_free_page` and the mapping through
-- which they reach a page. Free pages form a linked list: `hmem_phys_list` is the physical address
-- of the first one, and the first word of a page that of the next.
--
-- `Hmem` holds the globals, what `scoped_hmem_mapping` uses of the current task and of its last
-- page table (`table`, by index), and the physical memory as words by physical address.
-- `scoped_preemptlock` is not part of it.
pub mod Chains
mod Tests
use tinylittleos.Common.{
  ℕ, zero, suc, ◌+◌, ◌-◌, ◌*◌, ◌/◌, ◌%◌, ◌^◌, bit_and, bit_or, Bool, true, false, not, ◌&&◌, ◌==◌,
  ltb, leb, if◌then◌else◌,
}
use tinylittleos.Common.Run.{Run, ok, ◌>>=◌, ◌>>◌, kassert}
use tinylittleos.Memory.Kmem.{sub_w, align_page_down, present, store}

pub record Hmem : Type 0 where
  pub kmem_phys_end : ℕ
  pub hmem_phys_end : ℕ
  pub hmem_phys_list : ℕ
  pub current_task : ℕ
  pub hmem_end : ℕ
  pub last_entry : ℕ
  pub table : ℕ → ℕ
  pub phys : ℕ → ℕ
  pub is_interrupt_context : Bool

-- `(uint32_t)m_virt >> 12 & 0x03FF`
abbrev pub tab_index : ℕ → ℕ
tab_index virt = bit_and (virt / 2 ^ 12) 0x3FF

-- The constructor of `scoped_hmem_mapping`: returns `m_virt`.
unfoldable pub map_in : (addr : ℕ) → Hmem → Run (ℕ × Hmem)
map_in addr s = do
  kassert (not (s.current_task == 0))
  let m_virt = sub_w s.hmem_end 4096
  kassert (m_virt / 2 ^ 22 == 0x3FF)
  kassert (present s.last_entry)
  ok (
    m_virt,
    record s { hmem_end = m_virt; table = store s.table (tab_index m_virt) (bit_or addr 3) },
  )

-- The destructor.
unfoldable pub map_out : (m_virt : ℕ) → Hmem → Run Hmem
map_out m_virt s = do
  kassert (not (s.current_task == 0))
  kassert (s.hmem_end == m_virt)
  ok (record s { hmem_end = (s.hmem_end + 4096) % 2 ^ 32 })

-- The physical address behind a page of the last page table.
abbrev pub translate : Hmem → ℕ → ℕ
translate s virt = align_page_down (s.table (tab_index virt))

-- "no value in linked list, must reduce hmem_phys_end"
unfoldable pub take_last : Hmem → Run (ℕ × Hmem)
take_last s =
    let end = sub_w s.hmem_phys_end 4096 in
    do kassert (ltb s.kmem_phys_end end); ok (end, record s { hmem_phys_end = end })

-- "have a value in the linked list"
unfoldable pub take_first : Hmem → Run (ℕ × Hmem)
take_first s = do
  (virt, s1) ← map_in s.hmem_phys_list s
  s2 ← map_out virt (record s1 { hmem_phys_list = s1.phys (translate s1 virt) })
  ok (s.hmem_phys_list, s2)

unfoldable pub hmem_alloc_page : Hmem → Run (ℕ × Hmem)
unfolding take_last take_first
hmem_alloc_page s = do
  kassert (not s.is_interrupt_context)
  if s.hmem_phys_list == 0 then take_last s else take_first s

-- The branch of a list that is not empty.
unfoldable pub put_first : (addr : ℕ) → Hmem → Run Hmem
put_first addr s = do
  (virt, s1) ← map_in addr s
  map_out virt (record s1 {
    phys = store s1.phys (translate s1 virt) s1.hmem_phys_list;
    hmem_phys_list = addr;
  })

unfoldable pub hmem_free_page : (addr : ℕ) → Hmem → Run Hmem
unfolding put_first
hmem_free_page addr s = do
  kassert (not s.is_interrupt_context)
  kassert (leb s.hmem_phys_end addr)
  if s.hmem_phys_list == 0 then ok (record s { hmem_phys_list = addr }) else put_first addr s
