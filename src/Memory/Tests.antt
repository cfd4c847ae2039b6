-- ===== src/Memory/Tests.antt =====
-- kernel/memory/page_allocator.cpp on a machine with one buddy.
use tinylittleos.Common.{
  ℕ, ◌+◌, ◌<◌, ◌≤◌, ◌≡◌, ◌≢◌, ◌↔◌, refl, false, [], arith, ◌==◌, if◌then◌else◌, ◌%◌,
}
use tinylittleos.Common.Bits.{ctz}
use tinylittleos.Common.Run.{ok, ◌>>=◌, Returns, Returns-value, value_or, read, write}
use tinylittleos.Memory.Buddy.{
  Size, k4, k8, k16, k32, Heap, Buddies, level, null, head, all_zero, mark_alloc, alloc, free,
  lowest_in_array, first_nonzero, mark, clear_digit, unlink, word_index, bit_mask,
}
use tinylittleos.Memory.Buddy.Links.{has}
use tinylittleos.Memory.Buddy.Marks.{Good}
use tinylittleos.Memory.Buddy.Levels.{bit, Ready}
use tinylittleos.Memory.Buddy.Coherent.{IsCoherent, IsCoherent-cut}
use tinylittleos.Memory.Buddy.Alloc.{Allocates, alloc-Allocates}
use tinylittleos.Memory.Buddy.Free.{Frees, free-Frees}
use tinylittleos.Memory.Buddy.Cycle.{free-alloc}
use tinylittleos.Memory.Kmem.{
  Layout, Kmem, init_layout, push_new, kmem_buddy_new_no_alloc, buddy_alloc, kmem_alloc, kmem_free,
}
use tinylittleos.Memory.Kmem.Address.{base, bytes, page_bit, page_at, buddy_at}
use tinylittleos.Memory.Kmem.Blocks.{IsWf, Takes, kmem_alloc-Takes}
use tinylittleos.Memory.Kmem.Release.{IsBlock, kmem_free-buddy_alloc}
use tinylittleos.Memory.Kmem.Grow.{push_new-Good_iff}
use tinylittleos.Memory.Kmem.Fresh.{kmem_buddy_new_no_alloc-IsWf}

-- Before the first buddy.
abbrev nodes : Heap
nodes q = record { words = []; prev = 0; next = 0 }

abbrev none : Buddies
none = record { k4 = nodes; k8 = nodes; k16 = nodes; k32 = nodes }

abbrev layout : Layout
layout = record {
  buddy_array = 0xC0200000;
  buddy_array_size = 0x8000;
  kmem_region_end = 0x8000000;
  first_page_directory = 0xC0100000;
}

abbrev no_buddy : Kmem
no_buddy = record { buddies = none; buddy_array_pos = 0; kmem_phys_end = 0x208000; mem = λ a. 0 }

nodes-Good : (size : Size) → Good size 0 nodes
unfolding has
nodes-Good size = record {
  maps = λ p lo hi. absurd (omega arith);
  lists = record {
    order = [];
    real = λ p lt. ground arith;
    chain = refl;
    distinct = tt;
    members = λ p. ground arith;
    apart = λ p lo hi. absurd (omega arith);
  };
}

none-Ready : Ready 0 none
none-Ready k4 = nodes-Good k4
none-Ready k8 = nodes-Good k8
none-Ready k16 = nodes-Good k16
none-Ready k32 = nodes-Good k32

no_buddy-IsWf : IsWf layout no_buddy
no_buddy-IsWf = record {
  ready = none-Ready;
  coherent = λ q lo hi. absurd (omega arith);
  room = omega arith;
  low = omega arith;
}

no_buddy-null : (size : Size) → (level size none head).next ≡ null
no_buddy-null k4 = refl
no_buddy-null k8 = refl
no_buddy-null k16 = refl
no_buddy-null k32 = refl

-- With the first buddy.
abbrev one : Buddies
unfolding push_new
one = record {
  k4 = push_new k4 2 nodes;
  k8 = push_new k8 2 nodes;
  k16 = push_new k16 2 nodes;
  k32 = push_new k32 2 nodes;
}

abbrev one_buddy : Kmem
one_buddy = record no_buddy { buddies = one; buddy_array_pos = 1 }

kmem_buddy_new_no_alloc-IsWf_example : Returns (kmem_buddy_new_no_alloc layout no_buddy) λ k'.
    IsWf layout k'
    × (k'.buddy_array_pos ≡ 1)
    × ((addr : ℕ)
        → base layout ≤ addr
        → page_bit layout k'.buddies addr
          ≡ (if buddy_at layout addr == 2 then 1 else page_bit layout none addr))
kmem_buddy_new_no_alloc-IsWf_example =
    kmem_buddy_new_no_alloc-IsWf layout no_buddy no_buddy-IsWf no_buddy-null (omega arith)
      (omega arith) (omega arith)

one_buddy-IsWf : IsWf layout one_buddy
unfolding kmem_buddy_new_no_alloc one push_new
one_buddy-IsWf =
    (Returns-value
      (kmem_buddy_new_no_alloc-IsWf layout no_buddy no_buddy-IsWf no_buddy-null (omega arith)
        (omega arith) (omega arith))
      one_buddy refl).0

two_lt : 2 < 1 + 2
two_lt = omega arith

one-IsCoherent : IsCoherent one 2
one-IsCoherent = one_buddy-IsWf.coherent 2 (omega arith) two_lt

some_free : (size : Size) → all_zero (level size one 2).words ≡ false
unfolding all_zero one push_new
some_free k4 = refl
some_free k8 = refl
some_free k16 = refl
some_free k32 = refl

alloc-Allocates_example : Returns (alloc k16 2 one) (Allocates 1 2 k16 one)
alloc-Allocates_example =
    alloc-Allocates 1 2 (omega arith) two_lt one one-IsCoherent k16 (some_free k16)
      one_buddy-IsWf.ready

free-alloc_example :
    Returns
      (do (index, b1) ← alloc k8 2 one; free k8 2 index b1)
      λ b2. Ready 1 b2 × ((s : Size) (q i : ℕ) → IsCoherent one q → bit b2 s q i ≡ bit one s q i)
free-alloc_example =
    free-alloc 1 2 (omega arith) two_lt k8 one one_buddy-IsWf.ready one-IsCoherent (some_free k8)

-- After a page of it was taken.
abbrev page_taken : Buddies
unfolding alloc value_or one
page_taken = (value_or (0, one) (alloc k4 2 one)).1

page_taken-runs : alloc k4 2 one ≡ ok (0, page_taken)
unfolding alloc value_or one page_taken lowest_in_array first_nonzero mark mark_alloc clear_digit
    read write ctz unlink all_zero word_index bit_mask push_new
page_taken-runs = refl

page_taken-Allocates : Allocates 1 2 k4 one (0, page_taken)
page_taken-Allocates =
    Returns-value
      (alloc-Allocates 1 2 (omega arith) two_lt one one-IsCoherent k4 (some_free k4)
        one_buddy-IsWf.ready)
      (0, page_taken) page_taken-runs

page_taken-some : all_zero (level k32 page_taken 2).words ≡ false
unfolding alloc value_or one page_taken lowest_in_array first_nonzero mark mark_alloc clear_digit
    read write ctz unlink all_zero word_index bit_mask push_new
page_taken-some = refl

free-Frees_example : Returns (free k4 2 0 page_taken) (Frees 1 2 k4 0 page_taken)
free-Frees_example =
    free-Frees 1 2 (omega arith) two_lt k4 0 page_taken (omega arith)
      page_taken-Allocates.paints.ready
      (IsCoherent-cut 1 2 k4 0 one page_taken 2 page_taken-Allocates.paints one-IsCoherent)
      (page_taken-Allocates.paints.bits k4 2 0)

one-linked : (size : Size) → (level size one head).next ≢ null
unfolding one push_new
one-linked k4 e = omega (arith, e)
one-linked k8 e = omega (arith, e)
one-linked k16 e = omega (arith, e)
one-linked k32 e = omega (arith, e)

kmem_alloc-Takes_example :
    Returns
      (kmem_alloc layout 1 k8 one_buddy)
      λ r. Takes layout k8 one_buddy r × (r.0 % bytes k8 ≡ 0)
kmem_alloc-Takes_example =
    kmem_alloc-Takes layout one_buddy one_buddy-IsWf 0 k8 refl (one-linked k8)

-- The layout is that of a kernel that ends at 0xC01FF234, with 0x7DF8000 bytes of memory.
booted : init_layout 0xC01FF234 0x7DF8000 0xC0100000 ≡ layout
unfolding init_layout
booted = refl

kmem_free-buddy_alloc_example :
    Returns
      (do (ptr, k1) ← buddy_alloc layout k32 one_buddy; kmem_free layout k32 ptr k1)
      λ k2.
        IsWf layout k2
        × ((addr : ℕ)
            → base layout ≤ addr
            → page_bit layout k2.buddies addr ≡ page_bit layout one addr)
kmem_free-buddy_alloc_example =
    kmem_free-buddy_alloc layout one_buddy k32 one_buddy-IsWf (one-linked k32)

-- The address of the page.
abbrev taken_page : ℕ
taken_page = 0xC0208000

abbrev one_taken : Kmem
one_taken = record one_buddy { buddies = page_taken }

one_taken-IsWf : IsWf layout one_taken
one_taken-IsWf = record {
  ready = page_taken-Allocates.paints.ready;
  coherent = λ q lo hi.
      IsCoherent-cut 1 2 k4 0 one page_taken q page_taken-Allocates.paints
        (one_buddy-IsWf.coherent q lo hi);
  room = one_buddy-IsWf.room;
  low = one_buddy-IsWf.low;
}

taken_page-IsBlock : IsBlock layout k4 one_taken taken_page
taken_page-IsBlock = record {
  above = omega arith;
  below = omega arith;
  aligned = refl;
  taken = λ addr lo hi.
      ground
        (arith, page_taken-Allocates.paints.bits k4 (buddy_at layout addr) (page_at layout addr));
}

push_new-Good_iff_example : Good k4 2 (push_new k4 3 one.k4) ↔ ((one.k4 head).next ≡ null)
push_new-Good_iff_example = push_new-Good_iff k4 1 one.k4 (one_buddy-IsWf.ready k4)
