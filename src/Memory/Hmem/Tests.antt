-- ===== src/Memory/Hmem/Tests.antt =====
-- kernel/memory/page_allocator.cpp: the list of free pages on two pages.
use tinylittleos.Common.{◌≡◌, ◌↔◌, refl, false, [], ◌∷◌, arith, ◌==◌, if◌then◌else◌}
use tinylittleos.Common.Run.{Returns}
use tinylittleos.Memory.Buddy.Links.{has}
use tinylittleos.Memory.Hmem.{Hmem, hmem_free_page}
use tinylittleos.Memory.Hmem.Chains.{FreeList, Mappable, hmem_free_page-empty}

-- One page is free; every page has a word of text in it.
abbrev one_free : Hmem
one_free = record {
  kmem_phys_end = 0x300000;
  hmem_phys_end = 0x7FFE000;
  hmem_phys_list = 0x7FFF000;
  current_task = 0xC0210000;
  hmem_end = 0xFFFFF000;
  last_entry = 3;
  table = λ i. 0;
  phys = λ a. if a == 0x7FFF000 then 0 else 0x21796548;
  is_interrupt_context = false;
}

abbrev none_free : Hmem
none_free = record one_free { hmem_phys_list = 0 }

one_free-Mappable : Mappable one_free
one_free-Mappable = record {
  task = refl;
  window = refl;
  fits = omega arith;
  entry = refl;
  context = refl;
}

none_free-Mappable : Mappable none_free
none_free-Mappable = record {
  task = refl;
  window = refl;
  fits = omega arith;
  entry = refl;
  context = refl;
}

one_free-FreeList : FreeList one_free (0x7FFF000 ∷ [])
one_free-FreeList = (refl, omega arith, refl, refl)

not_listed : has 0x7FFE000 (0x7FFF000 ∷ []) ≡ false
unfolding has
not_listed = refl

hmem_free_page-empty_example :
    Returns
      (hmem_free_page 0x7FFE000 none_free)
      λ s'. FreeList s' (0x7FFE000 ∷ []) ↔ (none_free.phys 0x7FFE000 ≡ 0)
hmem_free_page-empty_example =
    hmem_free_page-empty none_free none_free-Mappable 0x7FFE000 refl (omega arith) (omega arith)
      refl
