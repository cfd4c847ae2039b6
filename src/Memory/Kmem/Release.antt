-- ===== src/Memory/Kmem/Release.antt =====
-- kernel/memory/page_allocator.cpp: `kmem_free_N`, and what it gives back.
use tinylittleos.Common.{
  ℕ, ◌+◌, ◌-◌, ◌*◌, ◌/◌, ◌%◌, ◌^◌, ◌<◌, ◌≤◌, ◌≡◌, ◌≢◌, refl, ap, ◌∙◌, true, ◌&&◌, arith, ◌==◌, leb,
  ltb,
}
use tinylittleos.Common.Bits.{bit_and_mask}
use tinylittleos.Common.Words.{digit-lt}
use tinylittleos.Common.Run.{ok, ◌>>=◌, Returns}
use tinylittleos.Memory.Buddy.{Size, k4, k8, k16, k32, level, head, null, free}
use tinylittleos.Memory.Buddy.Words.{width}
use tinylittleos.Memory.Buddy.Levels.{bit}
use tinylittleos.Memory.Buddy.Coherent.{pages, overlaps}
use tinylittleos.Memory.Buddy.FreeUp.{pages_pos}
use tinylittleos.Memory.Buddy.Free.{free-Frees}
use tinylittleos.Memory.Buddy.Cycle.{free_page}
use tinylittleos.Memory.Kmem.{
  Layout, Kmem, sub_w, page_shift, block_address, buddy_alloc, kmem_free,
}
use tinylittleos.Memory.Kmem.Address.{base, bytes, buddy_at, page_at, page_bit, in_block}
use tinylittleos.Memory.Kmem.Blocks.{IsWf, All, Sets, buddy_alloc-Takes}

-- An address that may be given back as a block of the size: aligned, and within the buddies.
pub record IsBlock (l : Layout) (size : Size) (k : Kmem) (ptr : ℕ) : Type 0 where
  pub above : base l ≤ ptr
  pub below : ptr + bytes size ≤ base l + k.buddy_array_pos * 2 ^ 19
  pub aligned : (ptr - base l) % bytes size ≡ 0
  pub taken : All l k 0 ptr (bytes size)

pub record Gives (l : Layout) (size : Size) (k : Kmem) (ptr : ℕ) (k' : Kmem) : Type 0 where
  pub wf : IsWf l k'
  pub now_free : Sets l k k' 1 ptr (bytes size)
  pub same_count : k'.buddy_array_pos ≡ k.buddy_array_pos

-- An offset is that of a buddy and of a block in it.
block_split :
    (size : Size) (rel : ℕ)
    → rel % bytes size ≡ 0
    → (rel ≡ rel / 2 ^ 19 * 2 ^ 19 + rel % 2 ^ 19 / bytes size * bytes size)
      × (rel % 2 ^ 19 / bytes size < width size)
block_split k4 rel e = (omega (arith, e), omega arith)
block_split k8 rel e = (omega (arith, e), omega arith)
block_split k16 rel e = (omega (arith, e), omega arith)
block_split k32 rel e = (omega (arith, e), omega arith)

-- The first page of a block, and its address.
first_page :
    (size : Size) (index : ℕ)
    → (overlaps size index k4 (index * pages size) ≡ true)
      × (index * bytes size ≡ index * pages size * 2 ^ 12)
      × (0 < bytes size)
first_page k4 index = (ground arith, omega arith, omega arith)
first_page k8 index = (ground arith, omega arith, omega arith)
first_page k16 index = (ground arith, omega arith, omega arith)
first_page k32 index = (ground arith, omega arith, omega arith)

module _ (l : Layout) (size : Size) (k : Kmem) (wf : IsWf l k) (ptr : ℕ)
    (block : IsBlock l size k ptr) where
  rel : ℕ
  rel = ptr - base l

  this : ℕ
  unfolding rel
  this = rel / 2 ^ 19 + 2

  index : ℕ
  unfolding rel
  index = rel % 2 ^ 19 / bytes size

  this_lt : this < k.buddy_array_pos + 2
  unfolding this rel
  this_lt = omega (arith, block.above, block.below, (first_page size 0).2)

  address : block_address l size (this - 2) index ≡ ptr
  unfolding this index rel
  address = omega (
    arith,
    (block_split size rel block.aligned).0,
    block.above,
    block.below,
    wf.room,
    (first_page size 0).2,
  )

  rel_pos : sub_w (sub_w ptr l.buddy_array) l.buddy_array_size ≡ rel
  unfolding rel
  rel_pos = omega (arith, block.above, block.below, wf.room, wf.low, (first_page size 0).2)

  page_index : page_at l ptr ≡ index * pages size
  unfolding this index rel
  page_index = omega (arith, (block_split size rel block.aligned).0, (first_page size index).1)

  block_free : bit k.buddies size this index ≡ 0
  unfolding this rel
  block_free = ground (
    arith,
    free_page k.buddies this (wf.coherent this (omega arith) this_lt) size index (page_at l ptr),
    first_page size index,
    ap (λ i. overlaps size index k4 i) page_index,
    block.taken ptr (omega arith) (omega (arith, (first_page size 0).2)),
    digit-lt (level size k.buddies this).words index,
  )

  release :
      kmem_free l size ptr k
      ≡ (do b ← free size this index k.buddies; ok (record k { buddies = b }))
  unfolding kmem_free this index rel
  release = rw (rel_pos, bit_and_mask (page_shift size) rel, bit_and_mask 19 rel) (rw block.aligned)

  inside :
      (addr : ℕ)
      → base l ≤ addr
      → ((buddy_at l addr == this) && overlaps size index k4 (page_at l addr))
        ≡ (leb ptr addr && ltb addr (ptr + bytes size))
  unfolding this index rel
  inside addr le =
      ap (λ q. (buddy_at l addr == q) && overlaps size index k4 (page_at l addr)) (omega arith)
      ∙ in_block l (this - 2) k.buddy_array_pos wf.room (omega (arith, this_lt)) size index addr
          (block_split size rel block.aligned).1 le
      ∙ ap (λ a. leb a addr && ltb addr (a + bytes size)) address

  -- `kmem_free_N` of a taken block succeeds, and frees exactly the pages of the block.
  pub kmem_free-Gives : Returns (kmem_free l size ptr k) (Gives l size k ptr)
  unfolding this index rel
  kmem_free-Gives =
      let (b, run, f) =
        free-Frees k.buddy_array_pos this (omega arith) this_lt size index k.buddies
          (block_split size rel block.aligned).1 wf.ready (wf.coherent this (omega arith) this_lt)
          block_free in
      (
        record k { buddies = b },
        release ∙ rw run,
        record {
          wf = record {
            ready = f.ready;
            coherent = λ q lo' hi'. f.coherent q (wf.coherent q lo' hi');
            room = wf.room;
            low = wf.low;
          };
          now_free = λ addr le. ground (
            arith,
            inside addr le,
            f.inside k4 (buddy_at l addr) (page_at l addr) (pages_pos size),
          );
          same_count = refl;
        },
      )

-- What `buddy_alloc<N>` takes can be given back by `kmem_free_N`: after the two the free pages are
-- those before them.
pub kmem_free-buddy_alloc :
    (l : Layout) (k : Kmem) (size : Size)
    → IsWf l k
    → (level size k.buddies head).next ≢ null
    → Returns
        (do (ptr, k1) ← buddy_alloc l size k; kmem_free l size ptr k1)
        λ k2.
          IsWf l k2
          × ((addr : ℕ) → base l ≤ addr → page_bit l k2.buddies addr ≡ page_bit l k.buddies addr)
kmem_free-buddy_alloc l k size wf ne =
    let ((ptr, k1), run1, t) = buddy_alloc-Takes l k wf size ne in
    let (k2, run2, g) = kmem_free-Gives l size k1 t.wf ptr record {
      above = t.above;
      below = omega (arith, t.below, t.same_count);
      aligned = t.aligned;
      taken = λ addr le lt. ground (arith, t.now_taken addr (omega (arith, t.above)));
    } in
    (
      k2,
      rw (run1, run2),
      (g.wf, λ addr le. ground (arith, g.now_free addr le, t.now_taken addr le, t.were_free addr)),
    )
