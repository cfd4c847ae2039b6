-- ===== src/Memory/Buddy/Cycle.antt =====
-- kernel/memory/page_allocator.cpp: `alloc<N>` and `free<N>` one after the other.
use tinylittleos.Common.{ℕ, ◌+◌, ◌*◌, ◌/◌, ◌<◌, ◌≤◌, ◌≡◌, ap, ◌∙◌, inl, inr, true, false, arith}
use tinylittleos.Common.Words.{digit-lt}
use tinylittleos.Common.Run.{ok, ◌>>=◌, Returns, Returns-value}
use tinylittleos.Memory.Buddy.{Size, k4, k8, k16, k32, Buddies, level, all_zero, alloc, free}
use tinylittleos.Memory.Buddy.Levels.{bit, Ready}
use tinylittleos.Memory.Buddy.Coherent.{half-cases, IsCoherent, IsCoherent-cut, Pairs, overlaps}
use tinylittleos.Memory.Buddy.Alloc.{alloc-Allocates}
use tinylittleos.Memory.Buddy.Free.{free-Frees}

module _ (b : Buddies) (q : ℕ) (c : IsCoherent b q) where
  half_free :
      (s t : Size)
      → Pairs (bit b s q) (bit b t q)
      → (i : ℕ) → bit b t q (i / 2) ≡ 1
      → bit b s q i ≡ 1
  half_free s t p i one = elim (half-cases i) [
    | inl even ↦
        ap (bit b s q) even ∙ ground (arith, p (i / 2), digit-lt (level s b q).words (i / 2 * 2))
    | inr odd ↦
        ap (bit b s q) odd ∙ ground (arith, p (i / 2), digit-lt (level s b q).words (i / 2 * 2 + 1))
  ]

  -- The pages of a free block are free.
  pub free_page :
      (size : Size) (index i : ℕ)
      → bit b size q index ≡ 1
      → overlaps size index k4 i ≡ true
      → bit b k4 q i ≡ 1
  free_page k4 index i one h = ap (bit b k4 q) (ground arith) ∙ one
  free_page k8 index i one h = half_free k4 k8 c.pairs8 i (ap (bit b k8 q) (ground arith) ∙ one)
  free_page k16 index i one h =
      half_free k4 k8 c.pairs8 i
        (half_free k8 k16 c.pairs16 (i / 2) (ap (bit b k16 q) (ground arith) ∙ one))
  free_page k32 index i one h = half_free k4 k8 c.pairs8 i (
      half_free k8 k16 c.pairs16 (i / 2)
        (half_free k16 k32 c.pairs32 (i / 2 / 2) (ap (bit b k32 q) (ground arith) ∙ one)))

-- The bitmap of 4k pages determines the others.
module _ (b b' : Buddies) (q : ℕ) (c : IsCoherent b q) (c' : IsCoherent b' q) where
  same_over :
      (s t : Size)
      → Pairs (bit b s q) (bit b t q)
      → Pairs (bit b' s q) (bit b' t q)
      → ((i : ℕ) → bit b' s q i ≡ bit b s q i)
      → (i : ℕ) → bit b' t q i ≡ bit b t q i
  same_over s t p p' e i = ground (arith, p i, p' i, e (i * 2), e (i * 2 + 1))

  determined :
      ((i : ℕ) → bit b' k4 q i ≡ bit b k4 q i) → (s : Size) (i : ℕ) → bit b' s q i ≡ bit b s q i
  determined e s =
      let e8 = same_over k4 k8 c.pairs8 c'.pairs8 e in
      let e16 = same_over k8 k16 c.pairs16 c'.pairs16 e8 in
      elim s as (λ k. (i : ℕ) → bit b' k q i ≡ bit b k q i) [
        | k4 ↦ e
        | k8 ↦ e8
        | k16 ↦ e16
        | k32 ↦ same_over k16 k32 c.pairs32 c'.pairs32 e16
      ]

module _ (n this : ℕ) (lo : 2 ≤ this) (hi : this < n + 2) where
  -- What `alloc<N>` takes, `free<N>` gives back: after the two the bitmaps are as before.
  pub free-alloc :
      (size : Size) (b : Buddies)
      → Ready n b
      → IsCoherent b this
      → all_zero (level size b this).words ≡ false
      → Returns
          (do (index, b1) ← alloc size this b; free size this index b1)
          λ b2. Ready n b2 × ((s : Size) (q i : ℕ) → IsCoherent b q → bit b2 s q i ≡ bit b s q i)
  free-alloc size b r c some =
      let ((index, b1), run1, a) = alloc-Allocates n this lo hi b c size some r in
      let c1 = IsCoherent-cut n this size index b b1 this a.paints c in
      let (b2, run2, f) =
        free-Frees n this lo hi size index b1 a.chosen.within a.paints.ready c1
          (ground (arith, a.paints.bits size this index)) in
      (
        b2,
        rw (run1, run2),
        (
          f.ready,
          λ s q i cq.
              determined b b2 q cq
                (f.coherent q (IsCoherent-cut n this size index b b1 q a.paints cq))
                (λ j. ground (
                  arith,
                  f.inside k4 q j,
                  a.paints.bits k4 q j,
                  free_page b this c size index j a.chosen.free,
                  ap (λ p. bit b k4 p j) {x = q} {y = this},
                ))
                s i,
        ),
      )

  -- Of two allocations without a release between them, of any sizes, the second does not share a
  -- page with the first.
  pub alloc-alloc :
      (size1 size2 : Size) (b b1 : Buddies) (index1 : ℕ)
      → Ready n b
      → IsCoherent b this
      → all_zero (level size1 b this).words ≡ false
      → alloc size1 this b ≡ ok (index1, b1)
      → all_zero (level size2 b1 this).words ≡ false
      → Returns (alloc size2 this b1) λ r. overlaps size1 index1 size2 r.0 ≡ false
  alloc-alloc size1 size2 b b1 index1 r c some1 run1 some2 =
      let a = Returns-value (alloc-Allocates n this lo hi b c size1 some1 r) (index1, b1) run1 in
      let c1 = IsCoherent-cut n this size1 index1 b b1 this a.paints c in
      let ((index2, b2), run2, a2) =
        alloc-Allocates n this lo hi b1 c1 size2 some2 a.paints.ready in
      ((index2, b2), run2, ground (arith, a.paints.bits size2 this index2, a2.chosen.free))
