-- ===== src/Memory/Buddy/Free.antt =====
-- kernel/memory/page_allocator.cpp: `free<N>` gives a block back: it marks the parts of the block
-- free, the block, and the blocks around it as far as their other half is free.
use tinylittleos.Common.{
  ℕ, ◌+◌, ◌*◌, ◌<◌, ◌≤◌, ◌≡◌, ◌≢◌, refl, inl, inr, ◌⊎◌, Bool, ◌&&◌, arith, ◌==◌, if◌then◌else◌, leb,
  ltb, Bool-cases, bit_xor,
}
use tinylittleos.Common.Bits.{bit_xor-one}
use tinylittleos.Common.Run.{Returns}
use tinylittleos.Memory.Buddy.{
  Size, k4, k8, k16, k32, Buddies, free_down_k8, free_down_k16, free_down_k32, free_down, free,
}
use tinylittleos.Memory.Buddy.Words.{width}
use tinylittleos.Memory.Buddy.Levels.{
  bit, Ready, Blocks, Paints, Paints-then, Paints-grow, unmark-Paints,
}
use tinylittleos.Memory.Buddy.Coherent.{IsCoherent, Pairs, pages, overlaps}
use tinylittleos.Memory.Buddy.FreeUp.{Above, pages_pos, Raises, free_up-Raises}

xor_pair : (j : ℕ) → bit_xor (j * 2) 1 ≡ j * 2 + 1
xor_pair j = ground (arith, bit_xor-one (j * 2))

-- The proper parts of a block.
abbrev parts : Size → ℕ → Blocks
parts size index s i = ltb (pages s) (pages size) && overlaps size index s i

module _ (n this : ℕ) (lo : 2 ≤ this) (hi : this < n + 2) where
  down8 :
      (index : ℕ) (b : Buddies)
      → index < 64
      → Ready n b
      → Returns (free_down_k8 this index b) (Paints n this 1 (parts k8 index) b)
  unfolding free_down_k8
  down8 index b lt r =
      let (b1, run1, p1) = unmark-Paints n this lo hi k4 (index * 2) b (omega arith) r in
      let (b2, run2, p2) =
        unmark-Paints n this lo hi k4 (bit_xor (index * 2) 1) b1 (omega (arith, xor_pair index))
          p1.ready in
      (
        b2,
        rw (run1, run2),
        Paints-grow n this 1 _ _ b b2 (λ s i. ground (arith, xor_pair index))
            (λ s i. ground (arith, xor_pair index)) (Paints-then n this 1 _ _ b b1 b2 p1 p2),
      )

  down16 :
      (index : ℕ) (b : Buddies)
      → index < 32
      → Ready n b
      → Returns (free_down_k16 this index b) (Paints n this 1 (parts k16 index) b)
  unfolding free_down_k16
  down16 index b lt r =
      let (b1, run1, p1) = unmark-Paints n this lo hi k8 (index * 2) b (omega arith) r in
      let (b2, run2, p2) = down8 (index * 2) b1 (omega arith) p1.ready in
      let x_lt : bit_xor (index * 2) 1 < 64 = omega (arith, xor_pair index) in
      let (b3, run3, p3) = unmark-Paints n this lo hi k8 (bit_xor (index * 2) 1) b2 x_lt p2.ready in
      let (b4, run4, p4) = down8 (bit_xor (index * 2) 1) b3 x_lt p3.ready in
      (
        b4,
        rw (run1, run2, run3, run4),
        Paints-grow n this 1 _ _ b b4 (λ s i. ground (arith, xor_pair index))
            (λ s i. ground (arith, xor_pair index))
            (Paints-then n this 1 _ _ b b2 b4 (Paints-then n this 1 _ _ b b1 b2 p1 p2)
              (Paints-then n this 1 _ _ b2 b3 b4 p3 p4)),
      )

  down32 :
      (index : ℕ) (b : Buddies)
      → index < 16
      → Ready n b
      → Returns (free_down_k32 this index b) (Paints n this 1 (parts k32 index) b)
  unfolding free_down_k32
  down32 index b lt r =
      let (b1, run1, p1) = unmark-Paints n this lo hi k16 (index * 2) b (omega arith) r in
      let (b2, run2, p2) = down16 (index * 2) b1 (omega arith) p1.ready in
      let x_lt : bit_xor (index * 2) 1 < 32 = omega (arith, xor_pair index) in
      let (b3, run3, p3) =
        unmark-Paints n this lo hi k16 (bit_xor (index * 2) 1) b2 x_lt p2.ready in
      let (b4, run4, p4) = down16 (bit_xor (index * 2) 1) b3 x_lt p3.ready in
      (
        b4,
        rw (run1, run2, run3, run4),
        Paints-grow n this 1 _ _ b b4 (λ s i. ground (arith, xor_pair index))
            (λ s i. ground (arith, xor_pair index))
            (Paints-then n this 1 _ _ b b2 b4 (Paints-then n this 1 _ _ b b1 b2 p1 p2)
              (Paints-then n this 1 _ _ b2 b3 b4 p3 p4)),
      )

  down-Paints :
      (size : Size) (index : ℕ) (b : Buddies)
      → index < width size
      → Ready n b
      → Returns (free_down size this index b) (Paints n this 1 (parts size index) b)
  unfolding free_down
  down-Paints k4 index b lt r = (b, refl, record { ready = r; bits = λ s q i. ground arith })
  down-Paints k8 index b lt r = down8 index b lt r
  down-Paints k16 index b lt r = down16 index b lt r
  down-Paints k32 index b lt r = down32 index b lt r

-- A block given back to a bitmap, and what is over it.
Pairs-fill :
    (f g f' g' : ℕ → ℕ) (P Q : ℕ → Bool)
    → Pairs f g
    → ((i : ℕ) → f' i ≡ (if P i then 1 else f i))
    → ((i : ℕ) → g' i ≡ (if Q i then 1 else g i))
    → ((i : ℕ) → (P (i * 2) ≡ Q i) × (P (i * 2 + 1) ≡ Q i))
    → Pairs f' g'
Pairs-fill f g f' g' P Q p ef eg h i =
    ground (arith, p i, ef (i * 2), ef (i * 2 + 1), eg i, (h i).0, (h i).1)

-- A block of at least the size `t` holds both halves of a block of that size, or neither.
abbrev Whole : Size → Size → Size → Type 0
Whole s t size =
    pages t ≤ pages size
    → (index i : ℕ)
    → (overlaps size index s (i * 2) ≡ overlaps size index t i)
      × (overlaps size index s (i * 2 + 1) ≡ overlaps size index t i)

whole8 : (size : Size) → Whole k4 k8 size
whole8 k4 h index i = (ground arith, ground arith)
whole8 k8 h index i = (ground arith, ground arith)
whole8 k16 h index i = (ground arith, ground arith)
whole8 k32 h index i = (ground arith, ground arith)

whole16 : (size : Size) → Whole k8 k16 size
whole16 k4 h index i = (ground arith, ground arith)
whole16 k8 h index i = (ground arith, ground arith)
whole16 k16 h index i = (ground arith, ground arith)
whole16 k32 h index i = (ground arith, ground arith)

whole32 : (size : Size) → Whole k16 k32 size
whole32 k4 h index i = (ground arith, ground arith)
whole32 k8 h index i = (ground arith, ground arith)
whole32 k16 h index i = (ground arith, ground arith)
whole32 k32 h index i = (ground arith, ground arith)

-- The result of giving a block back.
pub record Frees (n this : ℕ) (size : Size) (index : ℕ) (b b' : Buddies) : Type 0 where
  pub ready : Ready n b'
  pub coherent : (q : ℕ) → IsCoherent b q → IsCoherent b' q
  pub inside :
      (s : Size) (q i : ℕ)
      → pages s ≤ pages size
      → bit b' s q i ≡ (if (q == this) && overlaps size index s i then 1 else bit b s q i)
  pub others : (s : Size) (q i : ℕ) → q ≢ this → bit b' s q i ≡ bit b s q i

size-cases : (s size : Size) → pages s ≤ pages size → (s ≡ size) ⊎ (pages s < pages size)
size-cases s size le = ground arith

-- The part of `Above` for each of the three pairs of bitmaps.
above8 :
    (size : Size) (b : Buddies) (q : ℕ)
    → pages size < pages k8
    → Above size b q
    → Pairs (bit b k4 q) (bit b k8 q)
above8 k4 b q h a i = a.0 i
above8 k8 b q h a i = ground arith
above8 k16 b q h a i = ground arith
above8 k32 b q h a i = ground arith

above16 :
    (size : Size) (b : Buddies) (q : ℕ)
    → pages size < pages k16
    → Above size b q
    → Pairs (bit b k8 q) (bit b k16 q)
above16 k4 b q h a i = a.1.0 i
above16 k8 b q h a i = a.0 i
above16 k16 b q h a i = ground arith
above16 k32 b q h a i = ground arith

above32 :
    (size : Size) (b : Buddies) (q : ℕ)
    → pages size < pages k32
    → Above size b q
    → Pairs (bit b k16 q) (bit b k32 q)
above32 k4 b q h a i = a.1.1 i
above32 k8 b q h a i = a.1 i
above32 k16 b q h a i = a i
above32 k32 b q h a i = ground arith

module _ (n this : ℕ) (size : Size) (index : ℕ) (b b1 b2 : Buddies)
    (u : Raises n this size index b b1) (p : Paints n this 1 (parts size index) b1 b2) where
  inside :
      (s : Size) (q i : ℕ)
      → pages s ≤ pages size
      → bit b2 s q i ≡ (if (q == this) && overlaps size index s i then 1 else bit b s q i)
  inside s q i le = elim (size-cases s size le) [
    | inl e ↦ rw e (ground (arith, p.bits size q i, u.own q i, pages_pos size))
    | inr lt ↦ ground (arith, p.bits s q i, u.lower s lt q i)
  ]

  others : (s : Size) (q i : ℕ) → q ≢ this → bit b2 s q i ≡ bit b s q i
  others s q i ne = ground (arith, p.bits s q i, u.others s q i ne)

  outside : (s : Size) (i : ℕ) → pages size ≤ pages s → bit b2 s this i ≡ bit b1 s this i
  outside s i le = ground (arith, p.bits s this i)

  module _ (s t : Size) (large : pages t ≡ pages s * 2) (holds : Whole s t size)
      (over : pages size < pages t → Above size b1 this → Pairs (bit b1 s this) (bit b1 t this))
      (reach : pages size < pages t → pages size ≤ pages s) where
    pair-this : Pairs (bit b s this) (bit b t this) → Pairs (bit b2 s this) (bit b2 t this)
    pair-this c = elim (Bool-cases (leb (pages t) (pages size))) [
      | inl le ↦
          Pairs-fill (bit b s this) (bit b t this) (bit b2 s this) (bit b2 t this)
            (overlaps size index s) (overlaps size index t) c
            (λ i. ground (arith, inside s this i (ground (arith, pages_pos s))))
            (λ i. ground (arith, inside t this i (ground arith))) (holds (ground arith) index)
      | inr gt ↦
          let lt : pages size < pages t = ground arith in
          λ i. ground (
            arith,
            over lt u.above i,
            outside t i (omega arith),
            outside s (i * 2) (reach lt),
            outside s (i * 2 + 1) (reach lt),
          )
    ]

    pair-other :
        (q : ℕ) → q ≢ this → Pairs (bit b s q) (bit b t q) → Pairs (bit b2 s q) (bit b2 t q)
    pair-other q ne c i =
        ground (arith, c i, others t q i ne, others s q (i * 2) ne, others s q (i * 2 + 1) ne)

    pair : (q : ℕ) → Pairs (bit b s q) (bit b t q) → Pairs (bit b2 s q) (bit b2 t q)
    pair q c = elim (Bool-cases (q == this)) [
      | inl own ↦ let e : q ≡ this = ground arith in rw e (pair-this (λ i. ground (arith, c i, e)))
      | inr other ↦ pair-other q (ground arith) c
    ]

  Frees-intro : Frees n this size index b b2
  Frees-intro = record {
    ready = p.ready;
    coherent = λ q c. record {
      pairs8 = pair k4 k8 refl (whole8 size) (above8 size b1 this) (λ h. ground arith) q c.pairs8;
      pairs16 =
          pair k8 k16 refl (whole16 size) (above16 size b1 this) (λ h. ground arith) q c.pairs16;
      pairs32 =
          pair k16 k32 refl (whole32 size) (above32 size b1 this) (λ h. ground arith) q c.pairs32;
    };
    inside = inside;
    others = others;
  }

module _ (n this : ℕ) (lo : 2 ≤ this) (hi : this < n + 2) where
  -- `free<N>` of an allocated block succeeds: the pages of the block are free, other pages are as
  -- before, and the bitmaps of every buddy still belong together.
  pub free-Frees :
      (size : Size) (index : ℕ) (b : Buddies)
      → index < width size
      → Ready n b
      → IsCoherent b this
      → bit b size this index ≡ 0
      → Returns (free size this index b) (Frees n this size index b)
  unfolding free
  free-Frees size index b lt r c z =
      let (b1, run1, u) = free_up-Raises n this lo hi size index b lt r c z in
      let (b2, run2, p) = down-Paints n this lo hi size index b1 lt u.ready in
      (b2, rw (run1, run2), Frees-intro n this size index b b1 b2 u p)
