-- ===== src/Memory/Hmem/Chains.antt =====
-- kernel/memory/page_allocator.cpp: the list of free pages that `hmem_alloc_page` and
-- `hmem_free_page` keep.
use tinylittleos.Common.{
  ℕ, ◌+◌, ◌/◌, ◌%◌, ◌^◌, ◌<◌, ◌≤◌, ◌≡◌, ◌≢◌, ◌↔◌, refl, bit_or, true, false, List, [], ◌∷◌, arith,
  ◌==◌, leb, ==-refl, subst,
}
use tinylittleos.Common.Bits.{bit_or-three}
use tinylittleos.Common.Run.{ok, Returns}
use tinylittleos.Memory.Buddy.Links.{has}
use tinylittleos.Memory.Kmem.{sub_w, align_page_down, present, store}
use tinylittleos.Memory.Hmem.{
  Hmem, map_in, map_out, translate, tab_index, take_first, put_first, hmem_alloc_page,
  hmem_free_page,
}

-- From `start` the first words of the pages lead through `pages` to 0.
abbrev pub Pages : (ℕ → ℕ) → ℕ → List ℕ → Type 0
Pages phys start [] = start ≡ 0
Pages phys start (x ∷ xs) = (start ≡ x) × (x ≢ 0) × (x % 2 ^ 12 ≡ 0) × Pages phys (phys x) xs

abbrev pub FreeList : Hmem → List ℕ → Type 0
FreeList s = Pages s.phys s.hmem_phys_list

-- A page can be mapped, in the context of a task.
pub record Mappable (s : Hmem) : Type 0 where
  pub task : (s.current_task == 0) ≡ false
  pub window : sub_w s.hmem_end 4096 / 2 ^ 22 ≡ 0x3FF
  pub fits : s.hmem_end < 2 ^ 32
  pub entry : present s.last_entry ≡ true
  pub context : s.is_interrupt_context ≡ false

entry_page : (addr : ℕ) → addr % 2 ^ 12 ≡ 0 → align_page_down (bit_or addr 3) ≡ addr
entry_page addr e = omega (arith, bit_or-three addr, e)

module _ (s : Hmem) (m : Mappable s) (addr : ℕ) (page : addr % 2 ^ 12 ≡ 0) where
  mapped : ℕ × Hmem
  mapped =
      let m_virt = sub_w s.hmem_end 4096 in
      (
        m_virt,
        record s { hmem_end = m_virt; table = store s.table (tab_index m_virt) (bit_or addr 3) },
      )

  map_in-runs : map_in addr s ≡ ok mapped
  unfolding map_in mapped
  map_in-runs = rw (m.task, m.window, m.entry)

  -- The mapping shows the page.
  mapped-shows : translate mapped.1 mapped.0 ≡ addr
  unfolding mapped
  mapped-shows = ground (arith, entry_page addr page)

  -- Leaving it gives the window back.
  map_out-runs :
      (list : ℕ) (phys : ℕ → ℕ)
      → map_out mapped.0 (record mapped.1 { hmem_phys_list = list; phys = phys })
        ≡ ok (record s { table = mapped.1.table; hmem_phys_list = list; phys = phys })
  unfolding map_out mapped
  map_out-runs list phys =
      let back : (sub_w s.hmem_end 4096 + 4096) % 2 ^ 32 ≡ s.hmem_end = omega (arith, m.fits) in
      rw (m.task, ==-refl (sub_w s.hmem_end 4096), back)

-- A store at a page that is not on the list leaves the list.
Pages-store :
    (phys : ℕ → ℕ) (a v : ℕ) (xs : List ℕ) (start : ℕ)
    → has a xs ≡ false
    → Pages phys start xs
    → Pages (store phys a v) start xs
unfolding has
Pages-store phys a v [] start out c = c
Pages-store phys a v (x ∷ xs) start out c = (
  c.0,
  c.1,
  c.2,
  Pages-store phys a v xs _ (ground arith) (subst (λ y. Pages phys y xs) (ground arith) c.3),
)

leb-true : (a b : ℕ) → a ≤ b → leb a b ≡ true
leb-true a b h = ground arith

module _ (s : Hmem) (m : Mappable s) where
  alloc-list : (s.hmem_phys_list == 0) ≡ false → hmem_alloc_page s ≡ take_first s
  unfolding hmem_alloc_page
  alloc-list list = rw (m.context, list)

  free-list :
      (addr : ℕ)
      → s.hmem_phys_end ≤ addr
      → (s.hmem_phys_list == 0) ≡ false
      → hmem_free_page addr s ≡ put_first addr s
  unfolding hmem_free_page
  free-list addr end list = rw (m.context, leb-true s.hmem_phys_end addr end, list)

  -- `hmem_alloc_page` takes the first page of the list.
  pub hmem_alloc_page-first :
      (x : ℕ) (xs : List ℕ)
      → FreeList s (x ∷ xs)
      → Returns
          (hmem_alloc_page s)
          λ r. (r.0 ≡ x) × FreeList r.1 xs × Mappable r.1 × (r.1.hmem_phys_end ≡ s.hmem_phys_end)
  unfolding take_first map_out mapped
  hmem_alloc_page-first x xs c =
      let list : (s.hmem_phys_list == 0) ≡ false = ground (arith, c.0, c.1) in
      let page : s.hmem_phys_list % 2 ^ 12 ≡ 0 = rw c.0 c.2 in
      (
        (
          s.hmem_phys_list,
          record s {
            table = (mapped s m s.hmem_phys_list page).1.table;
            hmem_phys_list = s.phys s.hmem_phys_list;
          },
        ),
        rw (
          alloc-list list,
          map_in-runs s m s.hmem_phys_list page,
          mapped-shows s m s.hmem_phys_list page,
          map_out-runs s m s.hmem_phys_list page (s.phys s.hmem_phys_list) s.phys,
        ),
        (
          c.0,
          rw c.0 c.3,
          record {
            task = m.task;
            window = m.window;
            fits = m.fits;
            entry = m.entry;
            context = m.context;
          },
          refl,
        ),
      )

  -- `hmem_free_page` puts a page before a list that is not empty.
  pub hmem_free_page-first :
      (addr x : ℕ) (xs : List ℕ)
      → addr % 2 ^ 12 ≡ 0
      → s.hmem_phys_end ≤ addr
      → addr ≢ 0
      → has addr (x ∷ xs) ≡ false
      → FreeList s (x ∷ xs)
      → Returns (hmem_free_page addr s) λ s'. FreeList s' (addr ∷ x ∷ xs) × Mappable s'
  unfolding put_first mapped
  hmem_free_page-first addr x xs page end nz out c =
      let list : (s.hmem_phys_list == 0) ≡ false = ground (arith, c.0, c.1) in
      (
        record s {
          table = (mapped s m addr page).1.table;
          hmem_phys_list = addr;
          phys = store s.phys addr s.hmem_phys_list;
        },
        rw (free-list addr end list, map_in-runs s m addr page, mapped-shows s m addr page)
            (map_out-runs s m addr page addr (store s.phys addr s.hmem_phys_list)),
        (
          (
            refl,
            nz,
            page,
            Pages-store s.phys addr s.hmem_phys_list (x ∷ xs) _ out (rw (==-refl addr) c),
          ),
          record {
            task = m.task;
            window = m.window;
            fits = m.fits;
            entry = m.entry;
            context = m.context;
          },
        ),
      )

  -- With an empty list it does not write the page.
  pub hmem_free_page-empty :
      (addr : ℕ)
      → addr % 2 ^ 12 ≡ 0
      → s.hmem_phys_end ≤ addr
      → addr ≢ 0
      → FreeList s []
      → Returns (hmem_free_page addr s) λ s'. FreeList s' (addr ∷ []) ↔ (s.phys addr ≡ 0)
  unfolding hmem_free_page
  hmem_free_page-empty addr page end nz c =
      let list : (s.hmem_phys_list == 0) ≡ true = ground (arith, c) in
      (
        record s { hmem_phys_list = addr },
        rw (m.context, leb-true s.hmem_phys_end addr end, list),
        (λ f. f.3, λ z. (refl, nz, page, z)),
      )
