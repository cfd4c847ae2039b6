-- ===== src/Memory/Buddy/FreeUp.antt =====
-- kernel/memory/page_allocator.cpp: `free_up<N>` marks a block free, and the blocks around it as
-- far as their other half is free.
use tinylittleos.Common.{
  ℕ, ◌+◌, ◌*◌, ◌/◌, ◌<◌, ◌≤◌, ◌≡◌, ◌≢◌, refl, ap, ◌∙◌, inl, inr, true, false, ◌&&◌, arith, ◌==◌,
  if◌then◌else◌, Bool-cases, bit_xor,
}
use tinylittleos.Common.Bits.{bit_xor-one}
use tinylittleos.Common.Words.{digit-lt}
use tinylittleos.Common.Run.{Run, ok, ◌>>=◌, Returns}
use tinylittleos.Memory.Buddy.{
  Size, k4, k8, k16, k32, Buddies, unmark, is_free, free_up_k16, free_up_k8, free_up_k4, free_up,
}
use tinylittleos.Memory.Buddy.Words.{width}
use tinylittleos.Memory.Buddy.Levels.{
  bit, Ready, same, same_self, one, Paints, unmark-Paints, is_free-bit,
}
use tinylittleos.Memory.Buddy.Coherent.{IsCoherent, Pairs, Pairs-zero, pages}

-- The bitmaps of the size and of the larger ones belong together.
abbrev pub Above : Size → Buddies → ℕ → Type 0
Above k4 b q =
    Pairs (bit b k4 q) (bit b k8 q)
    × (Pairs (bit b k8 q) (bit b k16 q) × Pairs (bit b k16 q) (bit b k32 q))
Above k8 b q = Pairs (bit b k8 q) (bit b k16 q) × Pairs (bit b k16 q) (bit b k32 q)
Above k16 b q = Pairs (bit b k16 q) (bit b k32 q)
Above k32 b q = Unit

-- The block is marked free, smaller sizes and other buddies are kept, and the bitmaps of its size
-- and of the larger ones belong together.
pub record Raises (n this : ℕ) (size : Size) (index : ℕ) (b b' : Buddies) : Type 0 where
  pub ready : Ready n b'
  pub own :
      (q i : ℕ) → bit b' size q i ≡ (if (q == this) && (i == index) then 1 else bit b size q i)
  pub lower : (s : Size) → pages s < pages size → (q i : ℕ) → bit b' s q i ≡ bit b s q i
  pub others : (s : Size) (q i : ℕ) → q ≢ this → bit b' s q i ≡ bit b s q i
  pub above : Above size b' this

-- One bit is set, and the bit over it exactly if the other half has its bit set.
Pairs-set :
    (f g f' g' : ℕ → ℕ) (index : ℕ)
    → Pairs f g
    → f index ≡ 0
    → ((i : ℕ) → f i < 2)
    → ((i : ℕ) → f' i ≡ (if i == index then 1 else f i))
    → ((i : ℕ) → g' i ≡ (if (i == index / 2) && (f (bit_xor index 1) == 1) then 1 else g i))
    → Pairs f' g'
Pairs-set f g f' g' index p zero_bit lt ef eg i = ground (
  arith,
  p i,
  lt (i * 2),
  lt (i * 2 + 1),
  ef (i * 2),
  ef (i * 2 + 1),
  eg i,
  bit_xor-one index,
  ap f {x = bit_xor index 1} {y = i * 2},
  ap f {x = bit_xor index 1} {y = i * 2 + 1},
  ap f {x = index} {y = i * 2},
  ap f {x = index} {y = i * 2 + 1},
)

pub pages_pos : (s : Size) → 0 < pages s
pages_pos k4 = omega arith
pages_pos k8 = omega arith
pages_pos k16 = omega arith
pages_pos k32 = omega arith

same-pages : (r s : Size) → same r s ≡ true → pages r ≡ pages s
same-pages r s e = ground arith

module _ (n this : ℕ) (lo : 2 ≤ this) (hi : this < n + 2) where
  up32-Raises :
      (index : ℕ) (b : Buddies)
      → index < 16
      → Ready n b
      → Returns (unmark k32 this index b) (Raises n this k32 index b)
  up32-Raises index b lt r =
      let (b', run, p) = unmark-Paints n this lo hi k32 index b lt r in
      (
        b',
        run,
        record {
          ready = p.ready;
          own = λ q i. p.bits k32 q i;
          lower = λ s h q i. ground (arith, p.bits s q i);
          others = λ s q i ne. ground (arith, p.bits s q i);
          above = tt;
        },
      )

  -- From one size to the next: `up` is `free_up` of the parent size `t`.
  module _ (s t : Size) (up : ℕ → Buddies → Run Buddies) (wide : width s ≡ width t * 2)
      (large : pages t ≡ pages s * 2)
      (split : (b : Buddies)
        → Above s b this
        → Pairs (bit b s this) (bit b t this) × Above t b this)
      (join : (b : Buddies) → Pairs (bit b s this) (bit b t this) → Above t b this → Above s b this)
      (kept : (b b' : Buddies)
        → ((r : Size) → pages s < pages r → (i : ℕ) → bit b' r this i ≡ bit b r this i)
        → Above t b this
        → Above t b' this)
      (up-Raises : (index : ℕ) (b : Buddies)
        → index < width t
        → Ready n b
        → bit b t this index ≡ 0
        → Above t b this
        → Returns (up index b) (Raises n this t index b)) where
    step : ℕ → Buddies → Run Buddies
    step index b = do
      b1 ← unmark s this index b
      both ← is_free s this (bit_xor index 1) b1
      if both then up (bit_xor index 1 / 2) b1 else ok b1

    module _ (index : ℕ) (b b1 : Buddies) (lt : index < width s)
        (p1 : Paints n this 1 (one s index) b b1) (zero_bit : bit b s this index ≡ 0)
        (a : Above s b this) where
      sib : ℕ
      sib = bit_xor index 1

      first_own :
          (q i : ℕ) → bit b1 s q i ≡ (if (q == this) && (i == index) then 1 else bit b s q i)
      first_own q i = ground (arith, p1.bits s q i, same_self s)

      first_rest : (r : Size) → pages s ≢ pages r → (q i : ℕ) → bit b1 r q i ≡ bit b r q i
      first_rest r ne q i = ground (arith, p1.bits r q i, same-pages r s)

      -- The bit of the other half before and after.
      sib-bit : bit b1 s this sib ≡ bit b s this sib
      unfolding sib
      sib-bit = ground (arith, first_own this (bit_xor index 1), bit_xor-one index)

      pairs :
          (b2 : Buddies)
          → ((i : ℕ) → bit b2 s this i ≡ bit b1 s this i)
          → ((i : ℕ)
              → bit b2 t this i
                ≡ (if (i == index / 2) && (bit b s this sib == 1) then 1 else bit b t this i))
          → Pairs (bit b2 s this) (bit b2 t this)
      unfolding sib
      pairs b2 es et =
          Pairs-set (bit b s this) (bit b t this) _ _ index (split b a).0 zero_bit
            (λ i. digit-lt _ i) (λ i. es i ∙ ground (arith, first_own this i)) et

      single-Raises : (bit b1 s this sib == 1) ≡ false → Raises n this s index b b1
      single-Raises single = record {
        ready = p1.ready;
        own = first_own;
        lower = λ r h q i. first_rest r (omega (arith, pages_pos s)) q i;
        others = λ r q i ne. ground (arith, p1.bits r q i);
        above =
            join b1
              (pairs b1 (λ i. refl)
                (λ i. ground (arith, first_rest t (omega (arith, pages_pos s)) this i, sib-bit)))
              (kept b b1 (λ r h i. first_rest r (omega (arith, pages_pos s)) this i) (split b a).1);
      }

      half_zero : bit b1 t this (sib / 2) ≡ 0
      unfolding sib
      half_zero =
          first_rest t (omega (arith, pages_pos s)) this (bit_xor index 1 / 2)
          ∙ ap (bit b t this) (ground (arith, bit_xor-one index))
          ∙ Pairs-zero (bit b s this) (bit b t this) (split b a).0 index zero_bit

      both-Raises :
          (b2 : Buddies)
          → (bit b1 s this sib == 1) ≡ true
          → Raises n this t (sib / 2) b1 b2
          → Raises n this s index b b2
      unfolding sib
      both-Raises b2 both u = record {
        ready = u.ready;
        own = λ q i. u.lower s (omega (arith, pages_pos s)) q i ∙ first_own q i;
        lower = λ r h q i.
            u.lower r (omega (arith, pages_pos s)) q i
            ∙ first_rest r (omega (arith, pages_pos s)) q i;
        others = λ r q i ne. u.others r q i ne ∙ ground (arith, p1.bits r q i);
        above =
            join b2
              (pairs b2 (λ i. u.lower s (omega (arith, pages_pos s)) this i)
                (λ i. ground (
                  arith,
                  u.own this i,
                  first_rest t (omega (arith, pages_pos s)) this i,
                  sib-bit,
                  bit_xor-one index,
                )))
              u.above;
      }

    step-Raises :
        (index : ℕ) (b : Buddies)
        → index < width s
        → Ready n b
        → bit b s this index ≡ 0
        → Above s b this
        → Returns (step index b) (Raises n this s index b)
    unfolding step sib
    step-Raises index b lt r zero_bit a =
        let (b1, run1, p1) = unmark-Paints n this lo hi s index b lt r in
        let sib_lt : bit_xor index 1 < width s = ground (arith, bit_xor-one index) in
        rw (run1, is_free-bit n this lo hi s (bit_xor index 1) b1 sib_lt p1.ready)
          (elim (Bool-cases (bit b1 s this (bit_xor index 1) == 1)) [
            | inl both ↦ rw both (
                let (b2, run2, u) =
                  up-Raises (bit_xor index 1 / 2) b1 (ground arith) p1.ready
                    (half_zero index b b1 lt p1 zero_bit a)
                    (kept b b1
                      (λ q h i. first_rest index b b1 lt p1 zero_bit a q (omega arith) this i)
                      (split b a).1) in
                (b2, run2, both-Raises index b b1 lt p1 zero_bit a b2 both u))
            | inr single ↦ rw single (b1, refl, single-Raises index b b1 lt p1 zero_bit a single)
          ])

  free_up_k16-Raises :
      (index : ℕ) (b : Buddies)
      → index < 32
      → Ready n b
      → bit b k16 this index ≡ 0
      → Above k16 b this
      → Returns (free_up_k16 this index b) (Raises n this k16 index b)
  unfolding free_up_k16 step
  free_up_k16-Raises =
      step-Raises k16 k32 (unmark k32 this) refl refl (λ b a. (a, tt)) (λ b p a. p) (λ b b' e a. tt)
        (λ i b lt r z a. up32-Raises i b lt r)

  free_up_k8-Raises :
      (index : ℕ) (b : Buddies)
      → index < 64
      → Ready n b
      → bit b k8 this index ≡ 0
      → Above k8 b this
      → Returns (free_up_k8 this index b) (Raises n this k8 index b)
  unfolding free_up_k8 step
  free_up_k8-Raises =
      step-Raises k8 k16 (free_up_k16 this) refl refl (λ b a. a) (λ b p a. (p, a))
        (λ b b' e a i. ground (
          arith,
          a i,
          e k32 (omega arith) i,
          e k16 (omega arith) (i * 2),
          e k16 (omega arith) (i * 2 + 1),
        ))
        free_up_k16-Raises

  free_up_k4-Raises :
      (index : ℕ) (b : Buddies)
      → index < 128
      → Ready n b
      → bit b k4 this index ≡ 0
      → Above k4 b this
      → Returns (free_up_k4 this index b) (Raises n this k4 index b)
  unfolding free_up_k4 step
  free_up_k4-Raises =
      step-Raises k4 k8 (free_up_k8 this) refl refl (λ b a. a) (λ b p a. (p, a))
        (λ b b' e a. (
          λ i. ground (
            arith,
            a.0 i,
            e k16 (omega arith) i,
            e k8 (omega arith) (i * 2),
            e k8 (omega arith) (i * 2 + 1),
          ),
          λ i. ground (
            arith,
            a.1 i,
            e k32 (omega arith) i,
            e k16 (omega arith) (i * 2),
            e k16 (omega arith) (i * 2 + 1),
          ),
        ))
        free_up_k8-Raises

  above : (size : Size) (b : Buddies) → IsCoherent b this → Above size b this
  above k4 b c = (c.pairs8, (c.pairs16, c.pairs32))
  above k8 b c = (c.pairs16, c.pairs32)
  above k16 b c = c.pairs32
  above k32 b c = tt

  -- `free_up<N>` of an allocated block.
  pub free_up-Raises :
      (size : Size) (index : ℕ) (b : Buddies)
      → index < width size
      → Ready n b
      → IsCoherent b this
      → bit b size this index ≡ 0
      → Returns (free_up size this index b) (Raises n this size index b)
  unfolding free_up
  free_up-Raises k4 index b lt r c z = free_up_k4-Raises index b lt r z (above k4 b c)
  free_up-Raises k8 index b lt r c z = free_up_k8-Raises index b lt r z (above k8 b c)
  free_up-Raises k16 index b lt r c z = free_up_k16-Raises index b lt r z (above k16 b c)
  free_up-Raises k32 index b lt r c z = up32-Raises index b lt r
