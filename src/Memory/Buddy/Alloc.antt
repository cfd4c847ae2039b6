-- ===== src/Memory/Buddy/Alloc.antt =====
-- kernel/memory/page_allocator.cpp: `alloc<N>` takes a block that is free, and no other page.
use tinylittleos.Common.{
  ℕ, ◌+◌, ◌*◌, ◌/◌, ◌^◌, ◌<◌, ◌≤◌, ◌≡◌, refl, ap, ◌∙◌, inl, inr, false, ◌||◌, arith, ◌==◌,
  if◌then◌else◌, Bool-cases,
}
use tinylittleos.Common.Run.{Run, ok, ◌>>=◌, Returns}
use tinylittleos.Memory.Buddy.{Size, k4, k8, k16, k32, Buddies, level, all_zero, mark, alloc}
use tinylittleos.Memory.Buddy.Lowest.{Chosen, lowest_in_array-Chosen, lowest_in_word-Chosen}
use tinylittleos.Memory.Buddy.Levels.{
  bit, Ready, Blocks, one, row, Paints, Paints-then, Paints-grow, Paints-add, mark-Paints,
  mark_row-Paints,
}
use tinylittleos.Memory.Buddy.Coherent.{IsCoherent, Pairs-zero, overlaps}

-- The result of an allocation: the lowest free block of the size, and all blocks that share a page
-- with it are marked allocated.
pub record Allocates (n this : ℕ) (size : Size) (b : Buddies) (r : ℕ × Buddies) : Type 0 where
  pub chosen : Chosen size (level size b this).words r.0
  pub paints : Paints n this 0 (overlaps size r.0) b r.1

module _ (n this : ℕ) (lo : 2 ≤ this) (hi : this < n + 2) (b : Buddies)
    (c : IsCoherent b this) where
  -- The end of `alloc<4096>` and `alloc<8192>`: `k32` is cleared if `k16` was set.
  mark32 : (res16 index i32 : ℕ) → Buddies → Run (ℕ × Buddies)
  mark32 res16 index i32 b3 =
      if res16 == 0 then ok (index, b3) else do (_, b4) ← mark k32 this i32 b3; ok (index, b4)

  mark32-Paints :
      (res16 index i16 i32 : ℕ) (b3 : Buddies) (P : Blocks)
      → i32 ≡ i16 / 2
      → i16 < 32
      → ((res16 == 0) ≡ (bit b k16 this i16 == 0))
      → Paints n this 0 P b b3
      → Returns
          (mark32 res16 index i32 b3)
          λ r. (r.0 ≡ index) × Paints n this 0 (λ s i. P s i || one k32 i32 s i) b r.1
  unfolding mark32
  mark32-Paints res16 index i16 i32 b3 P e lt was p = elim (Bool-cases (res16 == 0)) [
    | inl none ↦ (
      (index, b3),
      rw none,
      (
        refl,
        Paints-add n this 0 P k32 i32 b b3
            (rw e (Pairs-zero (bit b k16 this) _ c.pairs32 i16 (ground arith))) p,
      ),
    )
    | inr some ↦
        let ((r, b4), run, (_, p4)) = mark-Paints n this lo hi k32 i32 b3 (omega arith) p.ready in
        ((index, b4), rw (some, run), (refl, Paints-then n this 0 P (one k32 i32) b b3 b4 p p4))
  ]

  -- The step before it, of `alloc<4096>`: `k16` and `k32`, if `k8` was set.
  mark16 : (res8 index i16 i32 : ℕ) → Buddies → Run (ℕ × Buddies)
  unfolding mark32
  mark16 res8 index i16 i32 b2 =
      if res8 == 0
      then ok (index, b2)
      else do (res16, b3) ← mark k16 this i16 b2; mark32 res16 index i32 b3

  mark16-Paints :
      (res8 index i8 i16 i32 : ℕ) (b2 : Buddies) (P : Blocks)
      → i16 ≡ i8 / 2
      → i32 ≡ i16 / 2
      → i8 < 64
      → P k16 i16 ≡ false
      → ((res8 == 0) ≡ (bit b k8 this i8 == 0))
      → Paints n this 0 P b b2
      → Returns (mark16 res8 index i16 i32 b2) λ r.
        (r.0 ≡ index) × Paints n this 0 (λ s i. (P s i || one k16 i16 s i) || one k32 i32 s i) b r.1
  unfolding mark16
  mark16-Paints res8 index i8 i16 i32 b2 P e16 e32 lt out was p = elim (Bool-cases (res8 == 0)) [
    | inl none ↦
        let z16 : bit b k16 this i16 ≡ 0 =
          rw e16 (Pairs-zero (bit b k8 this) _ c.pairs16 i8 (ground arith)) in
        (
          (index, b2),
          rw none,
          (
            refl,
            Paints-add n this 0 _ k32 i32 b b2
                (rw e32 (Pairs-zero (bit b k16 this) _ c.pairs32 i16 z16))
                (Paints-add n this 0 P k16 i16 b b2 z16 p),
          ),
        )
    | inr some ↦
        let ((res16, b3), run, (was16, p3)) =
          mark-Paints n this lo hi k16 i16 b2 (omega arith) p.ready in
        let (r, run4, q) =
          mark32-Paints res16 index i16 i32 b3 _ e32 (omega arith)
            (ground (arith, p.bits k16 this i16))
            (Paints-then n this 0 P (one k16 i16) b b2 b3 p p3) in
        (r, rw (some, run) run4, q)
  ]

  alloc4-Allocates :
      all_zero (b.k4 this).words ≡ false
      → Ready n b
      → Returns (alloc k4 this b) (Allocates n this k4 b)
  unfolding alloc mark16 mark32
  alloc4-Allocates some r =
      let (index, run, ch) =
        lowest_in_array-Chosen k4 (b.k4 this).words ((r k4).maps this lo hi) some in
      let ((_, b1), run1, (_, p1)) = mark-Paints n this lo hi k4 index b ch.within r in
      let ((res8, b2), run2, (was8, p2)) =
        mark-Paints n this lo hi k8 (index / 2 ^ 1) b1 (omega (arith, ch.within)) p1.ready in
      let ((i, b4), run4, (e, p4)) =
        mark16-Paints res8 index (index / 2 ^ 1) (index / 2 ^ 2) (index / 2 ^ 3) b2 _ (omega arith)
          (omega arith) (omega (arith, ch.within)) (ground arith)
          (ground (arith, p1.bits k8 this (index / 2 ^ 1)))
          (Paints-then n this 0 (one k4 index) (one k8 (index / 2 ^ 1)) b b1 b2 p1 p2) in
      (
        (index, b4),
        rw (run, run1, run2) (run4 ∙ ap (λ k. ok (k, b4)) e),
        record {
          chosen = ch;
          paints = Paints-grow n this 0 _ _ b b4 (λ s j. ground arith) (λ s j. ground arith) p4;
        },
      )

  alloc8-Allocates :
      all_zero (b.k8 this).words ≡ false
      → Ready n b
      → Returns (alloc k8 this b) (Allocates n this k8 b)
  unfolding alloc mark32
  alloc8-Allocates some r =
      let (index, run, ch) =
        lowest_in_array-Chosen k8 (b.k8 this).words ((r k8).maps this lo hi) some in
      let (b1, run1, p1) =
        mark_row-Paints n this lo hi k4 2 (index * 2 ^ 1) b (omega (arith, ch.within)) r in
      let ((_, b2), run2, (_, p2)) = mark-Paints n this lo hi k8 index b1 ch.within p1.ready in
      let q2 = Paints-then n this 0 (row k4 2 (index * 2 ^ 1)) (one k8 index) b b1 b2 p1 p2 in
      let ((res16, b3), run3, (was16, p3)) =
        mark-Paints n this lo hi k16 (index / 2 ^ 1) b2 (omega (arith, ch.within)) p2.ready in
      let ((i, b4), run4, (e, p4)) =
        mark32-Paints res16 index (index / 2 ^ 1) (index / 2 ^ 2) b3 _ (omega arith)
          (omega (arith, ch.within)) (ground (arith, q2.bits k16 this (index / 2 ^ 1)))
          (Paints-then n this 0 _ (one k16 (index / 2 ^ 1)) b b2 b3 q2 p3) in
      (
        (index, b4),
        rw (run, run1, run2, run3) (run4 ∙ ap (λ k. ok (k, b4)) e),
        record {
          chosen = ch;
          paints = Paints-grow n this 0 _ _ b b4 (λ s j. ground arith) (λ s j. ground arith) p4;
        },
      )

  alloc16-Allocates :
      all_zero (b.k16 this).words ≡ false
      → Ready n b
      → Returns (alloc k16 this b) (Allocates n this k16 b)
  unfolding alloc
  alloc16-Allocates some r =
      let m = (r k16).maps this lo hi in
      let (index, run, ch) = lowest_in_word-Chosen k16 (b.k16 this).words m some m.count in
      let (b1, run1, p1) =
        mark_row-Paints n this lo hi k4 4 (index * 2 ^ 2) b (omega (arith, ch.within)) r in
      let (b2, run2, p2) =
        mark_row-Paints n this lo hi k8 2 (index * 2 ^ 1) b1 (omega (arith, ch.within)) p1.ready in
      let ((_, b3), run3, (_, p3)) = mark-Paints n this lo hi k16 index b2 ch.within p2.ready in
      let ((_, b4), run4, (_, p4)) =
        mark-Paints n this lo hi k32 (index / 2 ^ 1) b3 (omega (arith, ch.within)) p3.ready in
      let q =
        Paints-then n this 0 _ _ b b3 b4
          (Paints-then n this 0 _ _ b b2 b3 (Paints-then n this 0 _ _ b b1 b2 p1 p2) p3) p4 in
      (
        (index, b4),
        rw (run, run1, run2, run3, run4),
        record {
          chosen = ch;
          paints = Paints-grow n this 0 _ _ b b4 (λ s j. ground arith) (λ s j. ground arith) q;
        },
      )

  alloc32-Allocates :
      all_zero (b.k32 this).words ≡ false
      → Ready n b
      → Returns (alloc k32 this b) (Allocates n this k32 b)
  unfolding alloc
  alloc32-Allocates some r =
      let m = (r k32).maps this lo hi in
      let (index, run, ch) = lowest_in_word-Chosen k32 (b.k32 this).words m some m.count in
      let ((_, b1), run1, (_, p1)) = mark-Paints n this lo hi k32 index b ch.within r in
      let (b2, run2, p2) =
        mark_row-Paints n this lo hi k4 8 (index * 2 ^ 3) b1 (omega (arith, ch.within)) p1.ready in
      let (b3, run3, p3) =
        mark_row-Paints n this lo hi k8 4 (index * 2 ^ 2) b2 (omega (arith, ch.within)) p2.ready in
      let (b4, run4, p4) =
        mark_row-Paints n this lo hi k16 2 (index * 2 ^ 1) b3 (omega (arith, ch.within)) p3.ready in
      let q =
        Paints-then n this 0 _ _ b b3 b4
          (Paints-then n this 0 _ _ b b2 b3 (Paints-then n this 0 _ _ b b1 b2 p1 p2) p3) p4 in
      (
        (index, b4),
        rw (run, run1, run2, run3, run4),
        record {
          chosen = ch;
          paints = Paints-grow n this 0 _ _ b b4 (λ s j. ground arith) (λ s j. ground arith) q;
        },
      )

  -- `alloc<N>` of a buddy with a free block of the size returns the lowest one, and marks exactly
  -- the blocks allocated that share a page with it.
  pub alloc-Allocates :
      (size : Size)
      → all_zero (level size b this).words ≡ false
      → Ready n b
      → Returns (alloc size this b) (Allocates n this size b)
  alloc-Allocates k4 = alloc4-Allocates
  alloc-Allocates k8 = alloc8-Allocates
  alloc-Allocates k16 = alloc16-Allocates
  alloc-Allocates k32 = alloc32-Allocates
