-- ===== src/Memory/Slab/Tests.antt =====
-- kernel/memory/slab.hpp: objects of 128 bytes in pages of 4k.
use tinylittleos.Common.{
  ℕ, ◌*◌, ◌^◌, ◌<◌, ◌≡◌, ◌⊎◌, refl, [], ◌∷◌, arith, ◌==◌, ltb, if◌then◌else◌, ◌/◌, replicate,
}
use tinylittleos.Common.Run.{ok, fault, panicked, out_of_bounds, Returns-value, write}
use tinylittleos.Ds.Bitset.{Bitset, empty, set_all_until, fill}
use tinylittleos.Ds.Bitset.Laws.{contains, IsWords, empty-IsWords, contains-empty}
use tinylittleos.Ds.Bitset.Prefix.{set_all_until_lem}
use tinylittleos.Memory.Slab.{
  get_page_size, waste_pct, get_metadata_size, num_objects_in_page, Slabs, allocate,
}
use tinylittleos.Memory.Slab.Allocate.{IsSlab, words}
use tinylittleos.Memory.Slab.Free.{Restores, free-allocate}

abbrev page : ℕ
page = 0xC0300

all_bits : Bitset
all_bits = record { m_set = (0x7FFFFFFF) ∷ [] }

all_bits_lem :
    IsWords 1 all_bits
    × ((j : ℕ)
        → contains all_bits j
          ≡ (if ltb j 31 then 1 else if j / 2 ^ 5 == 0 then 0 else contains (empty 32) j))
unfolding set_all_until fill write empty replicate all_bits
all_bits_lem =
    Returns-value (set_all_until_lem 1 (empty 32) 31 (empty-IsWords 32) (omega arith)) all_bits refl

abbrev one_slab : Slabs
one_slab = record {
  m_free_list = page * 4096;
  slabs = λ q. record { m_bits = all_bits; m_next = 0 };
}

all_bits-IsSlab : IsSlab 128 4096 (one_slab.slabs (page * 4096))
unfolding num_objects_in_page get_metadata_size
all_bits-IsSlab = record {
  shape = all_bits_lem.0;
  within = λ j le. ground (arith, all_bits_lem.1 j, contains-empty 32 j);
}

abbrev no_slab : Slabs
no_slab = record one_slab { m_free_list = 0 }

free-allocate_example :
    ((num_objects_in_page 128 4096 < words 128 4096 * 32)
      × Restores 128 4096 (fault panicked) one_slab)
    ⊎ ((num_objects_in_page 128 4096 ≡ words 128 4096 * 32)
        × (allocate 128 4096 (ok (page * 4096)) no_slab ≡ fault out_of_bounds))
free-allocate_example =
    free-allocate 128 4096 (fault panicked) page one_slab (omega arith) refl (omega arith)
      (omega arith) all_bits-IsSlab 0 (all_bits_lem.1 0) (page * 4096) no_slab refl all_bits_lem.0

-- In a page of 4k, 31 objects of 128 bytes have 32 bits, and 32 objects of 126 bytes too.
sizes :
    (num_objects_in_page 128 4096 ≡ 31)
    × (words 128 4096 ≡ 1)
    × (get_page_size 126 ≡ 4096)
    × (num_objects_in_page 126 4096 ≡ 32)
    × (words 126 4096 ≡ 1)
unfolding num_objects_in_page get_metadata_size get_page_size waste_pct
sizes = (refl, refl, refl, refl, refl)

page_size_of_128 : get_page_size 128 ≡ 4096
unfolding get_page_size waste_pct get_metadata_size
page_size_of_128 = refl
