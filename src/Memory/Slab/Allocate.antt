-- ===== src/Memory/Slab/Allocate.antt =====
-- kernel/memory/slab.hpp: `allocate` takes a free object of the first slab.
use tinylittleos.Common.{
  ℕ, ◌+◌, ◌*◌, ◌/◌, ◌^◌, ◌%◌, ◌<◌, ◌≤◌, ◌≡◌, ◌≢◌, ◌↔◌, ◌⊎◌, refl, Bool, true, false, ◌==◌, ltb,
  if◌then◌else◌, arith, Bool-cases, ==-refl, inl, inr,
}
use tinylittleos.Common.Run.{Run, Returns}
use tinylittleos.Ds.Bitset.{Bitset, find_bit}
use tinylittleos.Ds.Bitset.Laws.{contains, IsWords, Updates, clear_bit-Updates}
use tinylittleos.Ds.Bitset.Find.{Finds, find_bit-Finds}
use tinylittleos.Ds.Bitset.Prefix.{all_clear_until_iff}
use tinylittleos.Memory.Slab.{
  get_metadata_size, num_objects_in_page, Slab, Slabs, update, take_object, allocate,
}

pub update-same : (slabs : ℕ → Slab) (s : ℕ) (v : Slab) → update slabs s v s ≡ v
update-same slabs s v = rw (==-refl s)

pub update-other : (slabs : ℕ → Slab) (s q : ℕ) (v : Slab) → q ≢ s → update slabs s v q ≡ slabs q
update-other slabs s q v ne = ground arith

module _ (n page_size : ℕ) where
  -- The words of the bitset.
  abbrev pub words : ℕ
  words = (page_size / n + 31) / 32

  abbrev pub count : ℕ
  unfolding num_objects_in_page
  count = num_objects_in_page n page_size

  abbrev pub object_address : (s i : ℕ) → ℕ
  object_address s i = (s + get_metadata_size n page_size + n * i) % 2 ^ 32

  -- The bitset of a slab has its words, and no bit from the number of objects on.
  pub record IsSlab (v : Slab) : Type 0 where
    pub shape : IsWords words v.m_bits
    pub within : (j : ℕ) → num_objects_in_page n page_size ≤ j → contains v.m_bits j ≡ 0

  -- Object `i` of slab `s` was taken.
  pub record Takes (a : Slabs) (s i : ℕ) (a' : Slabs) : Type 0 where
    pub slab : IsSlab (a'.slabs s)
    pub bits :
        (j : ℕ)
        → contains (a'.slabs s).m_bits j ≡ (if j == i then 0 else contains (a.slabs s).m_bits j)
    pub next : (a'.slabs s).m_next ≡ (a.slabs s).m_next
    pub others : (q : ℕ) → q ≢ s → a'.slabs q ≡ a.slabs q
    -- The slab leaves the free list exactly if that was its last free object.
    pub list :
        ((a'.m_free_list ≡ s) × ((j : ℕ) × (contains (a'.slabs s).m_bits j ≡ 1)))
        ⊎ ((a'.m_free_list ≡ (a.slabs s).m_next) × ((j : ℕ) → contains (a'.slabs s).m_bits j ≡ 0))

  -- A slab is full exactly if no bit is set below the number of objects.
  pub remains :
      (t : Bitset)
      → IsWords words t
      → ((k : ℕ) → num_objects_in_page n page_size ≤ k → contains t k ≡ 0)
      → (full : Bool)
      → ((full ≡ true) ↔ ((k : ℕ) → k < num_objects_in_page n page_size → contains t k ≡ 0))
      → Finds (contains t) (words * 32) (find_bit t)
      → ((full ≡ false) × ((k : ℕ) × (contains t k ≡ 1)))
        ⊎ ((full ≡ true) × ((k : ℕ) → contains t k ≡ 0))
  remains t w up false e (inl f) = inl (refl, (find_bit t, f.1))
  remains t w up false e (inr f) = absurd (ground (arith, e.1 (λ k lt. f.1 k)))
  remains t w up true e f = inr (
    refl,
    λ k. elim (Bool-cases (ltb k (num_objects_in_page n page_size))) [
      | inl below ↦ e.0 refl k (ground arith)
      | inr above ↦ up k (ground arith)
    ],
  )

  module _ (fits : num_objects_in_page n page_size < words * 32) (a : Slabs)
      (v : IsSlab (a.slabs a.m_free_list)) where
    found :
        (j : ℕ)
        → contains (a.slabs a.m_free_list).m_bits j ≡ 1
        → Finds
            (contains (a.slabs a.m_free_list).m_bits)
            (words * 32)
            (find_bit (a.slabs a.m_free_list).m_bits)
        → (find_bit (a.slabs a.m_free_list).m_bits < num_objects_in_page n page_size)
          × (contains (a.slabs a.m_free_list).m_bits (find_bit (a.slabs a.m_free_list).m_bits) ≡ 1)
    found j one (inl f) =
        (ground (arith, f.1, v.within (find_bit (a.slabs a.m_free_list).m_bits)), f.1)
    found j one (inr f) = absurd (omega (arith, f.1 j, one))

    after : Bitset → Bool → Slabs
    after t full =
        let s = a.m_free_list in
        record a {
          m_free_list = if full then (a.slabs s).m_next else s;
          slabs = update a.slabs s (record (a.slabs s) { m_bits = t });
        }

    after-slab :
        (t : Bitset) (full : Bool)
        → (after t full).slabs a.m_free_list ≡ record (a.slabs a.m_free_list) { m_bits = t }
    unfolding after
    after-slab t full = rw (==-refl a.m_free_list)

    after-Takes :
        (t : Bitset) (full : Bool) (i : ℕ)
        → Updates words (a.slabs a.m_free_list).m_bits i 0 t
        → ((full ≡ false) × ((k : ℕ) × (contains t k ≡ 1)))
          ⊎ ((full ≡ true) × ((k : ℕ) → contains t k ≡ 0))
        → Takes a a.m_free_list i (after t full)
    unfolding after
    after-Takes t full i u end = record {
      slab =
          rw (after-slab t full)
            (record { shape = u.words; within = λ k le. ground (arith, u.bits k, v.within k le) });
      bits = λ k. rw (after-slab t full) (u.bits k);
      next = rw (after-slab t full);
      others = λ q ne. other q (ground arith);
      list = rw (after-slab t full) (list end);
    }
      where
        other : (q : ℕ) → (q == a.m_free_list) ≡ false → (after t full).slabs q ≡ a.slabs q
        other q e = rw e

        list :
            ((full ≡ false) × ((k : ℕ) × (contains t k ≡ 1)))
              ⊎ ((full ≡ true) × ((k : ℕ) → contains t k ≡ 0))
            → (((after t full).m_free_list ≡ a.m_free_list) × ((k : ℕ) × (contains t k ≡ 1)))
              ⊎ (((after t full).m_free_list ≡ (a.slabs a.m_free_list).m_next)
                  × ((k : ℕ) → contains t k ≡ 0))
        list (inl some) = inl (rw some.0, some.1)
        list (inr none) = inr (rw none.0, none.1)

    pub take_object-Takes :
        (j : ℕ)
        → contains (a.slabs a.m_free_list).m_bits j ≡ 1
        → Returns (take_object n page_size a) λ r.
          (i : ℕ) × (i < num_objects_in_page n page_size)
          × (contains (a.slabs a.m_free_list).m_bits i ≡ 1)
          × (r.0 ≡ object_address a.m_free_list i)
          × Takes a a.m_free_list i r.1
    unfolding take_object after
    take_object-Takes j one =
        let s = a.m_free_list in
        let old = (a.slabs s).m_bits in
        let i = find_bit old in
        let (lt, was) = found j one (find_bit-Finds words old v.shape) in
        let (t, run, u) = clear_bit-Updates words old i v.shape (omega (arith, fits, lt)) in
        let (full, run2, e) =
          all_clear_until_iff words t (num_objects_in_page n page_size) u.words fits in
        let up : (k : ℕ) → num_objects_in_page n page_size ≤ k → contains t k ≡ 0 =
          λ k le. ground (arith, u.bits k, v.within k le) in
        (
          (object_address s i, after t full),
          rw (run, run2),
          (
            i,
            lt,
            was,
            refl,
            after-Takes t full i u (remains t u.words up full e (find_bit-Finds words t u.words)),
          ),
        )

  module _ (fits : num_objects_in_page n page_size < words * 32) (a : Slabs) where
    -- `allocate` with a slab on the free list takes an object of it that was free.
    pub allocate-Takes :
        (kmem_alloc_pages : Run ℕ)
        → a.m_free_list ≢ 0
        → IsSlab (a.slabs a.m_free_list)
        → (j : ℕ) → contains (a.slabs a.m_free_list).m_bits j ≡ 1
        → Returns (allocate n page_size kmem_alloc_pages a) λ r.
          (i : ℕ) × (i < num_objects_in_page n page_size)
          × (contains (a.slabs a.m_free_list).m_bits i ≡ 1)
          × (r.0 ≡ object_address a.m_free_list i)
          × Takes a a.m_free_list i r.1
    unfolding allocate
    allocate-Takes kmem_alloc_pages ne v j one =
        let some : (a.m_free_list == 0) ≡ false = ground arith in
        rw some (take_object-Takes fits a v j one)
