-- ===== src/Memory/Slab/New.antt =====
-- kernel/memory/slab.hpp: `allocate` when no slab is on the free list.
use tinylittleos.Common.{
  ℕ, ◌*◌, ◌<◌, ◌≡◌, ◌≢◌, refl, ap, ◌∙◌, true, ◌==◌, ltb, if◌then◌else◌, arith, subst,
}
use tinylittleos.Common.Run.{ok, Returns}
use tinylittleos.Ds.Bitset.Laws.{contains, IsWords}
use tinylittleos.Ds.Bitset.Prefix.{set_all_until_lem, clear_all_lem}
use tinylittleos.Memory.Slab.{num_objects_in_page, Slab, Slabs, update, new_slab, allocate}
use tinylittleos.Memory.Slab.Allocate.{
  words, object_address, IsSlab, Takes, take_object-Takes, update-same, update-other,
}

module _ (n page_size : ℕ) where
  -- A new slab with all its objects free.
  pub record IsNew (page : ℕ) (a a' : Slabs) : Type 0 where
    pub first : a'.m_free_list ≡ page
    pub slab : IsSlab n page_size (a'.slabs page)
    pub bits :
        (j : ℕ)
        → contains (a'.slabs page).m_bits j
          ≡ (if ltb j (num_objects_in_page n page_size) then 1 else 0)
    pub next : (a'.slabs page).m_next ≡ 0
    pub others : (q : ℕ) → q ≢ page → a'.slabs q ≡ a.slabs q

  module _ (fits : num_objects_in_page n page_size < words n page_size * 32) (a : Slabs) where
    new_slab-IsNew :
        (page : ℕ)
        → IsWords (words n page_size) (a.slabs page).m_bits
        → Returns (new_slab n page_size page a) (IsNew page a)
    unfolding new_slab
    new_slab-IsNew page w =
        let (clear, run, c) = clear_all_lem (words n page_size) (a.slabs page).m_bits w in
        let (t, run2, e) =
          set_all_until_lem (words n page_size) clear (num_objects_in_page n page_size) c.0 fits in
        let bits : (j : ℕ)
            → contains t j ≡ (if ltb j (num_objects_in_page n page_size) then 1 else 0) =
          λ j. ground (arith, e.1 j, c.1 j) in
        let v : Slab = record { m_bits = t; m_next = 0 } in
        (
          record a { m_free_list = page; slabs = update a.slabs page v },
          rw (run, run2),
          record {
            first = refl;
            slab =
                rw (update-same a.slabs page v)
                  (record { shape = e.0; within = λ j le. ground (arith, bits j) });
            bits = λ j. rw (update-same a.slabs page v) (bits j);
            next = ap (λ (x : Slab). x.m_next) (update-same a.slabs page v);
            others = λ q ne. update-other a.slabs page q v ne;
          },
        )

    -- `allocate` with an empty free list makes a slab of the new page, all its objects free, and
    -- takes one of them.
    pub allocate-IsNew :
        (page : ℕ)
        → a.m_free_list ≡ 0
        → IsWords (words n page_size) (a.slabs page).m_bits
        → 0 < num_objects_in_page n page_size
        → Returns (allocate n page_size (ok page) a) λ r.
          (a' : Slabs) × IsNew page a a'
          × ((i : ℕ) × (i < num_objects_in_page n page_size)
              × (r.0 ≡ object_address n page_size page i)
              × Takes n page_size a' page i r.1)
    unfolding allocate
    allocate-IsNew page nil w some =
        let (a', run, new) = new_slab-IsNew page w in
        let (r, run2, (i, lt, was, at, t)) =
          take_object-Takes n page_size fits a' (rw new.first new.slab) 0
            (rw new.first (ground (arith, new.bits 0))) in
        let none : (a.m_free_list == 0) ≡ true = ground arith in
        (
          r,
          rw (none, run) run2,
          (
            a',
            new,
            (
              i,
              lt,
              at ∙ ap (λ (s : ℕ). object_address n page_size s i) new.first,
              subst (λ s. Takes n page_size a' s i r.1) new.first t,
            ),
          ),
        )
