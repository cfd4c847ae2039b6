-- ===== src/Memory/Kmem/Blocks.antt =====
-- kernel/memory/page_allocator.cpp: `buddy_alloc<N>` and `kmem_free_N` as operations on the set of
-- free pages, a page being known by its addresses.
use tinylittleos.Common.{
  ℕ, suc, ◌+◌, ◌-◌, ◌*◌, ◌%◌, ◌^◌, ◌<◌, ◌≤◌, ◌≡◌, ◌≢◌, refl, ap, ◌∙◌, false, ◌&&◌, arith, ◌==◌, leb,
  ltb, if◌then◌else◌,
}
use tinylittleos.Common.Run.{Returns}
use tinylittleos.Memory.Buddy.{Size, k4, k8, k16, k32, Buddies, level, head, null}
use tinylittleos.Memory.Buddy.Words.{width}
use tinylittleos.Memory.Buddy.Levels.{bit, Ready}
use tinylittleos.Memory.Buddy.Coherent.{Coherent, IsCoherent-cut, overlaps}
use tinylittleos.Memory.Buddy.Alloc.{Allocates, alloc-Allocates}
use tinylittleos.Memory.Buddy.Cycle.{free_page}
use tinylittleos.Memory.Kmem.{
  Layout, Kmem, page_shift, fill, block_address, buddy_alloc, kmem_alloc,
}
use tinylittleos.Memory.Kmem.Lists.{first_buddy}
use tinylittleos.Memory.Kmem.Address.{
  base, bytes, buddy_at, page_at, page_bit, block_offset, in_block,
}

-- The allocator is in order: lists and bitmaps fit, and all buddies lie below 4G.
pub record IsWf (l : Layout) (k : Kmem) : Type 0 where
  pub ready : Ready k.buddy_array_pos k.buddies
  pub coherent : Coherent k.buddy_array_pos k.buddies
  pub room : base l + k.buddy_array_pos * 2 ^ 19 ≤ 2 ^ 32
  pub low : 0 < base l

-- The pages from `start` on are all free (1) or all taken (0).
abbrev pub All : Layout → Kmem → (v start count : ℕ) → Type 0
All l k v start count =
    (addr : ℕ) → start ≤ addr → addr < start + count → page_bit l k.buddies addr ≡ v

-- From `k` to `k'` the pages from `start` on get the value `v`, and no other page changes.
abbrev pub Sets : Layout → Kmem → Kmem → (v start count : ℕ) → Type 0
Sets l k k' v start count =
    (addr : ℕ)
    → base l ≤ addr
    → page_bit l k'.buddies addr
      ≡ (if leb start addr && ltb addr (start + count) then v else page_bit l k.buddies addr)

-- The address that an allocation of the size returns, and the state after it.
pub record Takes (l : Layout) (size : Size) (k : Kmem) (r : ℕ × Kmem) : Type 0 where
  pub wf : IsWf l r.1
  pub above : base l ≤ r.0
  pub below : r.0 + bytes size ≤ base l + k.buddy_array_pos * 2 ^ 19
  pub aligned : (r.0 - base l) % bytes size ≡ 0
  pub were_free : All l k 1 r.0 (bytes size)
  pub now_taken : Sets l k r.1 0 r.0 (bytes size)
  pub same_count : r.1.buddy_array_pos ≡ k.buddy_array_pos

block_end :
    (size : Size) (n pos index : ℕ)
    → pos < n
    → index < width size
    → (pos * 2 ^ 19 + index * bytes size + bytes size ≤ n * 2 ^ 19)
      × ((pos * 2 ^ 19 + index * bytes size) % bytes size ≡ 0)
block_end k4 n pos index h lt = (omega arith, omega arith)
block_end k8 n pos index h lt = (omega arith, omega arith)
block_end k16 n pos index h lt = (omega arith, omega arith)
block_end k32 n pos index h lt = (omega arith, omega arith)

multiple :
    {b : ℕ} (size : Size) (r : ℕ)
    → b % 2 ^ 15 ≡ 0
    → b ≤ r
    → (r - b) % bytes size ≡ 0
    → r % bytes size ≡ 0
multiple k4 r round le e = omega arith
multiple k8 r round le e = omega arith
multiple k16 r round le e = omega arith
multiple k32 r round le e = omega arith

module _ (l : Layout) (k : Kmem) (wf : IsWf l k) where
  module _ (size : Size) (this : ℕ) (lo : 2 ≤ this) (hi : this < k.buddy_array_pos + 2) (index : ℕ)
      (b : Buddies) (a : Allocates k.buddy_array_pos this size k.buddies (index, b)) where
    address : ℕ
    address = block_address l size (this - 2) index

    offset : address ≡ base l + (this - 2) * 2 ^ 19 + index * bytes size
    unfolding address
    offset =
        block_offset l (this - 2) k.buddy_array_pos wf.room (omega arith) size index a.chosen.within

    inside :
        (addr : ℕ)
        → base l ≤ addr
        → ((buddy_at l addr == this) && overlaps size index k4 (page_at l addr))
          ≡ (leb address addr && ltb addr (address + bytes size))
    unfolding address
    inside addr le =
        ap (λ q. (buddy_at l addr == q) && overlaps size index k4 (page_at l addr)) (omega arith)
        ∙ in_block l (this - 2) k.buddy_array_pos wf.room (omega arith) size index addr
            a.chosen.within le

    taken : (mem : ℕ → ℕ) → Takes l size k (address, record k { buddies = b; mem = mem })
    taken mem = record {
      wf = record {
        ready = a.paints.ready;
        coherent = λ q lo' hi'.
            IsCoherent-cut k.buddy_array_pos this size index k.buddies b q a.paints
              (wf.coherent q lo' hi');
        room = wf.room;
        low = wf.low;
      };
      above = omega (arith, offset);
      below = omega (
        arith,
        offset,
        (block_end size k.buddy_array_pos (this - 2) index (omega arith) a.chosen.within).0,
      );
      aligned =
          ap (λ x. x % bytes size) (omega (arith, offset))
          ∙ (block_end size k.buddy_array_pos (this - 2) index (omega arith) a.chosen.within).1;
      were_free = λ addr le lt.
          let h = inside addr (omega (arith, offset)) in
          ap (λ q. bit k.buddies k4 q (page_at l addr)) (ground (arith, h))
          ∙ free_page k.buddies this (wf.coherent this lo hi) size index (page_at l addr)
              a.chosen.free (ground (arith, h));
      now_taken = λ addr le.
          ground (arith, inside addr le, a.paints.bits k4 (buddy_at l addr) (page_at l addr));
      same_count = refl;
    }

  -- `buddy_alloc<N>`, if the list of the size is not empty.
  pub buddy_alloc-Takes :
      (size : Size)
      → (level size k.buddies head).next ≢ null
      → Returns (buddy_alloc l size k) (Takes l size k)
  unfolding buddy_alloc address
  buddy_alloc-Takes size ne =
      let this = (level size k.buddies head).next in
      let (lo, hi, some) =
        first_buddy k.buddy_array_pos (level size k.buddies) size (wf.ready size) ne in
      let ((index, b), run, a) =
        alloc-Allocates k.buddy_array_pos this lo hi k.buddies (wf.coherent this lo hi) size some
          wf.ready in
      let res = block_address l size (this - 2) index in
      let full : (this == null) ≡ false = ground arith in
      (
        (res, record k { buddies = b; mem = fill k.mem res (2 ^ page_shift size) 0x41414141 }),
        rw (full, run),
        taken size this lo hi index b a _,
      )

  -- If the buddies begin at a multiple of 32k, as `init_page_allocator` has them, `kmem_alloc_N`
  -- returns a block that was free, if the list of the size is not empty: its address is a multiple of
  -- the size, it lies within the buddies, exactly its pages are taken, and the allocator is in order.
  pub kmem_alloc-Takes :
      (fuel : ℕ) (size : Size)
      → base l % 2 ^ 15 ≡ 0
      → (level size k.buddies head).next ≢ null
      → Returns (kmem_alloc l (suc fuel) size k) λ r. Takes l size k r × (r.0 % bytes size ≡ 0)
  unfolding kmem_alloc
  kmem_alloc-Takes fuel size round ne =
      let (r, run, t) = buddy_alloc-Takes size ne in
      let some : (r.0 == 0) ≡ false = ground (arith, t.above, wf.low) in
      (r, rw (run, some), (t, multiple size r.0 round t.above t.aligned))
