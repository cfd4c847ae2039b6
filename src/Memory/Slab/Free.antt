-- ===== src/Memory/Slab/Free.antt =====
-- kernel/memory/slab.hpp: `free` gives an object back to the slab at the start of its page.
use tinylittleos.Common.{
  ℕ, ◌+◌, ◌-◌, ◌*◌, ◌/◌, ◌^◌, ◌<◌, ◌≤◌, ◌≡◌, ◌≢◌, ◌⊎◌, sym, ap, ◌∙◌, Bool, true, false, ◌==◌, ltb,
  if◌then◌else◌, arith, Bool-cases, subst, inl, inr,
}
use native.Mathlib.Nat.{
  mul-le-mul_left, mul-div-le, mul-div_cancel_left, mul-add, add-mul, div-eq_of_lt-le,
}
use tinylittleos.Common.Run.{Run, ok, fault, out_of_bounds, ◌>>=◌, Returns}
use tinylittleos.Ds.Bitset.Laws.{contains, IsWords, set_bit-Updates}
use tinylittleos.Ds.Bitset.Find.{find_bit-Finds}
use tinylittleos.Ds.Bitset.Prefix.{all_clear_until_iff}
use tinylittleos.Memory.Slab.{
  get_metadata_size, num_objects_in_page, Slab, Slabs, update, allocate, free,
}
use tinylittleos.Memory.Slab.Beyond.{objects-words, allocate-beyond}
use tinylittleos.Memory.Slab.Allocate.{
  words, object_address, IsSlab, Takes, allocate-Takes, remains, update-same, update-other,
}

settle :
    {A B : Type 0} (full : Bool) (s list next : ℕ)
    → ((full ≡ false) × A) ⊎ ((full ≡ true) × B)
    → (A × ((if full then s else list) ≡ list) × ((if full then list else next) ≡ next))
      ⊎ (B × ((if full then s else list) ≡ s) × ((if full then list else next) ≡ list))
settle full s list next (inl some) = inl (some.1, rw some.0, rw some.0)
settle full s list next (inr none) = inr (none.1, rw none.0, rw none.0)

module _ (n page_size : ℕ) where
  -- Object `i` of the slab of a page is free again; a slab that was full is first in the free list.
  pub record Gives (a : Slabs) (s i : ℕ) (a' : Slabs) : Type 0 where
    pub slab : IsSlab n page_size (a'.slabs s)
    pub bits :
        (j : ℕ)
        → contains (a'.slabs s).m_bits j ≡ (if j == i then 1 else contains (a.slabs s).m_bits j)
    pub others : (q : ℕ) → q ≢ s → a'.slabs q ≡ a.slabs q
    pub list :
        (((j : ℕ) × (contains (a.slabs s).m_bits j ≡ 1))
          × (a'.m_free_list ≡ a.m_free_list)
          × ((a'.slabs s).m_next ≡ (a.slabs s).m_next))
        ⊎ (((j : ℕ) → contains (a.slabs s).m_bits j ≡ 0)
            × (a'.m_free_list ≡ s)
            × ((a'.slabs s).m_next ≡ a.m_free_list))

module _ (n page_size : ℕ) where
  -- After `allocate` and `free` of the object all is as before.
  abbrev pub Restores : (kmem_alloc_pages : Run ℕ) (a : Slabs) → Type 0
  Restores kmem_alloc_pages a =
      Returns (do (ptr, a1) ← allocate n page_size kmem_alloc_pages a; free n page_size ptr a1)
        λ a2.
          (a2.m_free_list ≡ a.m_free_list)
          × ((q k : ℕ) → contains (a2.slabs q).m_bits k ≡ contains (a.slabs q).m_bits k)
          × ((q : ℕ) → (a2.slabs q).m_next ≡ (a.slabs q).m_next)

module _ (n page_size : ℕ) (pos : 0 < n)
    (fits : num_objects_in_page n page_size < words n page_size * 32) where
  -- The object lies in the page of its slab.
  in_page :
      (i : ℕ)
      → i < num_objects_in_page n page_size
      → get_metadata_size n page_size + n * i + n ≤ page_size
  unfolding num_objects_in_page
  in_page i lt =
      let le : i + 1 ≤ (page_size - get_metadata_size n page_size) / n = omega (arith, lt) in
      omega (
        arith,
        mul-le-mul_left n le,
        mul-div-le (page_size - get_metadata_size n page_size) n,
        mul-add n i 1,
        pos,
      )

  module _ (page i : ℕ) (lt : i < num_objects_in_page n page_size)
      (room : page * page_size + page_size ≤ 2 ^ 32) where
    ptr : ℕ
    ptr = object_address n page_size (page * page_size) i

    address : ptr ≡ page * page_size + get_metadata_size n page_size + n * i
    unfolding ptr
    address = omega (arith, in_page i lt, pos, room)

    page_of : ptr / page_size * page_size ≡ page * page_size
    unfolding ptr
    page_of =
        ap (λ k. k * page_size)
          (div-eq_of_lt-le page_size {m = ptr} (omega (arith, address, in_page i lt))
            (omega (arith, address, in_page i lt, add-mul page 1 page_size)))

    bit_of : (ptr - page * page_size - get_metadata_size n page_size) / n ≡ i
    unfolding ptr
    bit_of =
        let rest : ptr - page * page_size - get_metadata_size n page_size ≡ n * i =
          omega (arith, address) in
        ap (λ k. k / n) rest ∙ mul-div_cancel_left i pos

  -- `free` of the address of an object of a slab.
  pub free-Gives :
      (page i : ℕ) (a : Slabs)
      → i < num_objects_in_page n page_size
      → page * page_size + page_size ≤ 2 ^ 32
      → IsSlab n page_size (a.slabs (page * page_size))
      → Returns
          (free n page_size (object_address n page_size (page * page_size) i) a)
          (Gives n page_size a (page * page_size) i)
  unfolding free ptr
  free-Gives page i a lt room v =
      let s = page * page_size in
      let old = (a.slabs s).m_bits in
      let w = v.shape in
      let (full, run, e) =
        all_clear_until_iff (words n page_size) old (num_objects_in_page n page_size) w fits in
      let (t, run2, u) = set_bit-Updates (words n page_size) old i w (omega (arith, lt, fits)) in
      let v' : Slab = record {
        m_bits = t;
        m_next = if full then a.m_free_list else (a.slabs s).m_next;
      } in
      (
        record a { m_free_list = if full then s else a.m_free_list; slabs = update a.slabs s v' },
        rw (page_of page i lt room, bit_of page i lt room, run, run2),
        record {
          slab =
              rw (update-same a.slabs s v') record {
                shape = u.words;
                within = λ j le. ground (arith, u.bits j, v.within j le);
              };
          bits = λ j. rw (update-same a.slabs s v') (u.bits j);
          others = λ q ne. update-other a.slabs s q v' ne;
          list = rw (update-same a.slabs s v') (
              settle full s a.m_free_list (a.slabs s).m_next (
                remains n page_size old w v.within full e
                  (find_bit-Finds (words n page_size) old w)));
        },
      )

  restored :
      (a a1 a2 : Slabs) (s i : ℕ)
      → a.m_free_list ≡ s
      → contains (a.slabs s).m_bits i ≡ 1
      → Takes n page_size a s i a1
      → Gives n page_size a1 s i a2
      → (a2.m_free_list ≡ s) × ((a2.slabs s).m_next ≡ (a.slabs s).m_next)
  restored a a1 a2 s i first one t g = settled t.list g.list
    where
      settled :
          ((a1.m_free_list ≡ s) × ((j : ℕ) × (contains (a1.slabs s).m_bits j ≡ 1)))
            ⊎ ((a1.m_free_list ≡ (a.slabs s).m_next)
                × ((j : ℕ) → contains (a1.slabs s).m_bits j ≡ 0))
          → (((j : ℕ) × (contains (a1.slabs s).m_bits j ≡ 1))
              × (a2.m_free_list ≡ a1.m_free_list)
              × ((a2.slabs s).m_next ≡ (a1.slabs s).m_next))
            ⊎ (((j : ℕ) → contains (a1.slabs s).m_bits j ≡ 0)
                × (a2.m_free_list ≡ s)
                × ((a2.slabs s).m_next ≡ a1.m_free_list))
          → (a2.m_free_list ≡ s) × ((a2.slabs s).m_next ≡ (a.slabs s).m_next)
      settled (inl x) (inl y) = (y.1 ∙ x.0, y.2 ∙ t.next)
      settled (inl x) (inr y) = absurd (omega (arith, x.1.1, y.0 x.1.0))
      settled (inr x) (inl y) = absurd (omega (arith, y.0.1, x.1 y.0.0))
      settled (inr x) (inr y) = (y.1, y.2 ∙ x.0)

  -- An allocation, as a change of the slab at `s`.
  Allocates : (kmem_alloc_pages : Run ℕ) (a : Slabs) (s : ℕ) → Type 0
  Allocates kmem_alloc_pages a s = Returns (allocate n page_size kmem_alloc_pages a) λ r.
      (i : ℕ) × (i < num_objects_in_page n page_size)
      × (contains (a.slabs s).m_bits i ≡ 1)
      × (r.0 ≡ object_address n page_size s i)
      × Takes n page_size a s i r.1

  allocate-Allocates :
      (kmem_alloc_pages : Run ℕ) (a : Slabs)
      → a.m_free_list ≢ 0
      → (s : ℕ) → a.m_free_list ≡ s
      → IsSlab n page_size (a.slabs s)
      → (j : ℕ) → contains (a.slabs s).m_bits j ≡ 1
      → Allocates kmem_alloc_pages a s
  unfolding Allocates
  allocate-Allocates kmem_alloc_pages a ne s first v j one =
      subst (λ q. Allocates kmem_alloc_pages a q) first
        (allocate-Takes n page_size fits a kmem_alloc_pages ne
          (subst (λ q. IsSlab n page_size (a.slabs q)) (sym first) v) j
          (subst (λ q. contains (a.slabs q).m_bits j ≡ 1) (sym first) one))

  module _ (a a1 a2 : Slabs) (s i : ℕ) (was : contains (a.slabs s).m_bits i ≡ 1)
      (t : Takes n page_size a s i a1) (g : Gives n page_size a1 s i a2) where
    bits-restored : (q k : ℕ) → contains (a2.slabs q).m_bits k ≡ contains (a.slabs q).m_bits k
    bits-restored q k = elim (Bool-cases (q == s)) [
      | inl own ↦
          let e : q ≡ s = ground arith in
          rw e (
            ground
              (arith, g.bits k, t.bits k, was, ap (contains (a.slabs s).m_bits) {x = k} {y = i}))
      | inr other ↦
          ap (λ (x : Slab). contains x.m_bits k)
            (g.others q (ground arith) ∙ t.others q (ground arith))
    ]

    next-restored :
        (a2.slabs s).m_next ≡ (a.slabs s).m_next
        → (q : ℕ) → (a2.slabs q).m_next ≡ (a.slabs q).m_next
    next-restored back q = elim (Bool-cases (q == s)) [
      | inl own ↦ let e : q ≡ s = ground arith in rw e back
      | inr other ↦
          ap (λ (x : Slab). x.m_next) (g.others q (ground arith) ∙ t.others q (ground arith))
    ]

  free-allocate_fits :
      (kmem_alloc_pages : Run ℕ) (page : ℕ) (a : Slabs)
      → a.m_free_list ≡ page * page_size
      → page * page_size ≢ 0
      → page * page_size + page_size ≤ 2 ^ 32
      → IsSlab n page_size (a.slabs (page * page_size))
      → (j : ℕ) → contains (a.slabs (page * page_size)).m_bits j ≡ 1
      → Restores n page_size kmem_alloc_pages a
  unfolding Allocates
  free-allocate_fits kmem_alloc_pages page a first ne room v j one =
      let s = page * page_size in
      let ((ptr, a1), run1, (i, lt, was, at, t)) =
        allocate-Allocates kmem_alloc_pages a (λ e. ne (sym first ∙ e)) s first v j one in
      let (a2, run2, g) = free-Gives page i a1 lt room t.slab in
      let back = restored a a1 a2 s i first was t g in
      (
        a2,
        rw run1 (subst (λ p. free n page_size p a1 ≡ ok a2) (sym at) run2),
        (
          back.0 ∙ sym first,
          bits-restored a a1 a2 s i was t g,
          next-restored a a1 a2 s i was t g back.1,
        ),
      )

-- Either the slabs for a size have fewer objects than bits. Then what `allocate` takes from a slab
-- of the free list, `free` gives back: after the two the free list, the links and the free objects of
-- all slabs are as before. Or they have as many: then `allocate` with an empty free list uses the word
-- behind the bitset of the new slab, which is out of bounds.
pub free-allocate :
    (n page_size : ℕ) (kmem_alloc_pages : Run ℕ) (page : ℕ) (a : Slabs)
    → 0 < n
    → a.m_free_list ≡ page * page_size
    → page * page_size ≢ 0
    → page * page_size + page_size ≤ 2 ^ 32
    → IsSlab n page_size (a.slabs (page * page_size))
    → (j : ℕ) → contains (a.slabs (page * page_size)).m_bits j ≡ 1
    → (new_page : ℕ) (empty : Slabs) → empty.m_free_list ≡ 0
    → IsWords (words n page_size) (empty.slabs new_page).m_bits
    → ((num_objects_in_page n page_size < words n page_size * 32)
        × Restores n page_size kmem_alloc_pages a)
      ⊎ ((num_objects_in_page n page_size ≡ words n page_size * 32)
          × (allocate n page_size (ok new_page) empty ≡ fault out_of_bounds))
free-allocate n page_size kmem_alloc_pages page a pos first ne room v j one new_page empty none_ w =
    elim (Bool-cases (ltb (num_objects_in_page n page_size) (words n page_size * 32))) [
      | inl lt ↦
          let fits : num_objects_in_page n page_size < words n page_size * 32 = ground arith in
          inl (
            fits,
            free-allocate_fits n page_size pos fits kmem_alloc_pages page a first ne room v j one,
          )
      | inr ge ↦
          let all : num_objects_in_page n page_size ≡ words n page_size * 32 =
            ground (arith, objects-words n page_size pos) in
          inr (all, allocate-beyond n page_size pos new_page empty all none_ w)
    ]
