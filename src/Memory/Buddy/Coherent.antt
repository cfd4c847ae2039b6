-- ===== src/Memory/Buddy/Coherent.antt =====
-- kernel/memory/page_allocator.cpp: how the four bitmaps of a buddy belong together. A block is
-- free in the bitmap of its size exactly if both of its halves are free in theirs, so that the
-- bitmap of 4k pages determines the others.
use tinylittleos.Common.{
  ℕ, ◌+◌, ◌*◌, ◌/◌, ◌<◌, ◌≤◌, ◌≡◌, sym, ap, ◌∙◌, inl, inr, ◌⊎◌, Bool, ◌&&◌, ◌||◌, arith, ◌==◌,
  if◌then◌else◌, ltb, min,
}
use tinylittleos.Memory.Buddy.{Size, k4, k8, k16, k32, Buddies}
use tinylittleos.Memory.Buddy.Levels.{bit, Blocks, Paints}

-- `g` is the bitmap over the pairs of `f`.
abbrev pub Pairs : (ℕ → ℕ) → (ℕ → ℕ) → Type 0
Pairs f g = (i : ℕ) → g i ≡ min (f (i * 2)) (f (i * 2 + 1))

pub record IsCoherent (b : Buddies) (q : ℕ) : Type 0 where
  pub pairs8 : Pairs (bit b k4 q) (bit b k8 q)
  pub pairs16 : Pairs (bit b k8 q) (bit b k16 q)
  pub pairs32 : Pairs (bit b k16 q) (bit b k32 q)

abbrev pub Coherent : ℕ → Buddies → Type 0
Coherent n b = (q : ℕ) → 2 ≤ q → q < n + 2 → IsCoherent b q

pub half-cases : (j : ℕ) → (j ≡ j / 2 * 2) ⊎ (j ≡ j / 2 * 2 + 1)
half-cases j = ground arith

-- A block with a part that is not free is not free.
pub Pairs-zero : (f g : ℕ → ℕ) → Pairs f g → (j : ℕ) → f j ≡ 0 → g (j / 2) ≡ 0
Pairs-zero f g p j e = elim (half-cases j) [
  | inl even ↦ omega (arith, p (j / 2), sym (ap f even) ∙ e)
  | inr odd ↦ omega (arith, p (j / 2), sym (ap f odd) ∙ e)
]

-- How many 4k pages a block of the size has.
abbrev pub pages : Size → ℕ
pages k4 = 1
pages k8 = 2
pages k16 = 4
pages k32 = 8

-- The blocks that share a page with block `index` of size `size`.
abbrev pub overlaps : Size → ℕ → Blocks
overlaps size index s i =
    ltb (i * pages s) ((index + 1) * pages size) && ltb (index * pages size) ((i + 1) * pages s)

-- Pairs are kept where the blocks that share a page with one block are taken away.
Pairs-cut :
    (f g f' g' : ℕ → ℕ) (P Q : ℕ → Bool)
    → Pairs f g
    → ((i : ℕ) → f' i ≡ (if P i then 0 else f i))
    → ((i : ℕ) → g' i ≡ (if Q i then 0 else g i))
    → ((i : ℕ) → Q i ≡ (P (i * 2) || P (i * 2 + 1)))
    → Pairs f' g'
Pairs-cut f g f' g' P Q p ef eg h i = ground (arith, p i, ef (i * 2), ef (i * 2 + 1), eg i, h i)

-- A block shares a page with another exactly if one of its halves does.
abbrev Halves : Size → Size → Type 0
Halves s t =
    (size : Size) (index i : ℕ)
    → overlaps size index t i ≡ (overlaps size index s (i * 2) || overlaps size index s (i * 2 + 1))

halves8 : Halves k4 k8
halves8 k4 index i = ground arith
halves8 k8 index i = ground arith
halves8 k16 index i = ground arith
halves8 k32 index i = ground arith

halves16 : Halves k8 k16
halves16 k4 index i = ground arith
halves16 k8 index i = ground arith
halves16 k16 index i = ground arith
halves16 k32 index i = ground arith

halves32 : Halves k16 k32
halves32 k4 index i = ground arith
halves32 k8 index i = ground arith
halves32 k16 index i = ground arith
halves32 k32 index i = ground arith

module _ (n this : ℕ) (size : Size) (index : ℕ) (b b' : Buddies) (q : ℕ)
    (p : Paints n this 0 (overlaps size index) b b') where
  cut : (s t : Size) → Halves s t → Pairs (bit b s q) (bit b t q) → Pairs (bit b' s q) (bit b' t q)
  cut s t halves pairs =
      Pairs-cut _ _ _ _ (λ i. (q == this) && overlaps size index s i)
        (λ i. (q == this) && overlaps size index t i) pairs (p.bits s q) (p.bits t q)
        (λ i. ground (arith, halves size index i))

  pub IsCoherent-cut : IsCoherent b q → IsCoherent b' q
  IsCoherent-cut c = record {
    pairs8 = cut k4 k8 halves8 c.pairs8;
    pairs16 = cut k8 k16 halves16 c.pairs16;
    pairs32 = cut k16 k32 halves32 c.pairs32;
  }
