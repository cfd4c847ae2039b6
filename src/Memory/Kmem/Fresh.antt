-- ===== src/Memory/Kmem/Fresh.antt =====
-- kernel/memory/page_allocator.cpp: `kmem_buddy_new_no_alloc` when no buddy has a free block of any
-- size.
use tinylittleos.Common.{
  ℕ, ◌+◌, ◌-◌, ◌*◌, ◌/◌, ◌%◌, ◌^◌, ◌<◌, ◌≤◌, ◌≡◌, ◌≢◌, refl, ap, ◌∙◌, true, List, [], ◌∷◌, arith,
  ◌==◌, ltb, if◌then◌else◌, get_or, get_or-cons, ap₂,
}
use tinylittleos.Common.Bits.{bit_at, bit_at-ones, bit_at-zero}
use tinylittleos.Common.Words.{digit}
use tinylittleos.Common.Run.{ok, Returns}
use tinylittleos.Memory.Buddy.{Size, k4, k8, k16, k32, Heap, head, null, Buddies, level}
use tinylittleos.Memory.Buddy.Words.{width}
use tinylittleos.Memory.Buddy.Levels.{bit, Ready}
use tinylittleos.Memory.Buddy.Coherent.{IsCoherent, Pairs}
use tinylittleos.Memory.Kmem.{Layout, Kmem, all_free, push_new, kmem_buddy_new_no_alloc}
use tinylittleos.Memory.Kmem.Address.{base, page_bit, buddy_at, page_at}
use tinylittleos.Memory.Kmem.Blocks.{IsWf}
use tinylittleos.Memory.Kmem.Grow.{push_new-Good_iff, push_new-words}

digit-nil : (j : ℕ) → digit [] j ≡ 0
unfolding digit get_or
digit-nil j = bit_at-zero (j % 2 ^ 5)

digit-cons :
    (w : ℕ) (ws : List ℕ) (j : ℕ)
    → digit (w ∷ ws) j ≡ (if ltb j 32 then bit_at w j else digit ws (j - 32))
unfolding digit
digit-cons w ws j = ground (
  arith,
  get_or-cons w ws (j / 2 ^ 5) 0,
  ap (bit_at w) {x = j % 2 ^ 5} {y = j},
  ap (λ k. get_or ws k 0) {x = j / 2 ^ 5 - 1} {y = (j - 32) / 2 ^ 5},
  ap₂ (λ k i. bit_at (get_or ws k 0) i) {x = j / 2 ^ 5 - 1} {y = (j - 32) / 2 ^ 5},
)

no_bits : (j : ℕ) → digit [] j ≡ (if ltb j 0 then 1 else 0)
no_bits j = ground (arith, digit-nil j)

ones-cons :
    (n : ℕ) (ws : List ℕ)
    → ((j : ℕ) → digit ws j ≡ (if ltb j n then 1 else 0))
    → (i : ℕ) → digit ((2 ^ 32 - 1) ∷ ws) i ≡ (if ltb i (32 + n) then 1 else 0)
ones-cons n ws e i = ground (arith, digit-cons (2 ^ 32 - 1) ws i, bit_at-ones 32 i, e (i - 32))

-- In a new buddy the bits of all blocks are set.
pub all_free-digit :
    (size : Size) (i : ℕ) → digit (all_free size) i ≡ (if ltb i (width size) then 1 else 0)
all_free-digit k4 i = ones-cons 96 _ (ones-cons 64 _ (ones-cons 32 _ (ones-cons 0 [] no_bits))) i
all_free-digit k8 i = ones-cons 32 _ (ones-cons 0 [] no_bits) i
all_free-digit k16 i = ones-cons 0 [] no_bits i
all_free-digit k32 i =
    ground (arith, digit-cons (2 ^ 16 - 1) [] i, digit-nil (i - 32), bit_at-ones 16 i)

module _ (l : Layout) (k : Kmem) (wf : IsWf l k)
    (full : (size : Size) → (level size k.buddies head).next ≡ null)
    (place : k.buddy_array_pos * 64 < l.buddy_array_size) (small : l.buddy_array_size < 2 ^ 32)
    (room : base l + (k.buddy_array_pos + 1) * 2 ^ 19 ≤ 2 ^ 32) where
  grown : Buddies
  grown =
      let this = k.buddy_array_pos + 2 in
      record {
        k4 = push_new k4 this k.buddies.k4;
        k8 = push_new k8 this k.buddies.k8;
        k16 = push_new k16 this k.buddies.k16;
        k32 = push_new k32 this k.buddies.k32;
      }

  grown-level : (s : Size) → level s grown ≡ push_new s (k.buddy_array_pos + 2) (level s k.buddies)
  unfolding grown
  grown-level k4 = refl
  grown-level k8 = refl
  grown-level k16 = refl
  grown-level k32 = refl

  grown-Ready : Ready (k.buddy_array_pos + 1) grown
  grown-Ready s =
      rw (grown-level s)
        ((push_new-Good_iff s k.buddy_array_pos (level s k.buddies) (wf.ready s)).1 (full s))

  grown-bit :
      (s : Size) (q i : ℕ)
      → bit grown s q i ≡ (
          if q == k.buddy_array_pos + 2
          then (if ltb i (width s) then 1 else 0)
          else bit k.buddies s q i)
  grown-bit s q i =
      ap (λ (h : Heap). digit (h q).words i) (grown-level s)
      ∙ ap (λ ws. digit ws i) (push_new-words s k.buddy_array_pos (level s k.buddies) q)
      ∙ ground (arith, all_free-digit s i)

  grown-pair :
      (s t : Size) (q : ℕ)
      → width s ≡ width t * 2
      → (q ≢ k.buddy_array_pos + 2 → Pairs (bit k.buddies s q) (bit k.buddies t q))
      → Pairs (bit grown s q) (bit grown t q)
  grown-pair s t q wide p i = ground (
    arith,
    grown-bit t q i,
    grown-bit s q (i * 2),
    grown-bit s q (i * 2 + 1),
    λ (ne : q ≢ k.buddy_array_pos + 2). p ne i,
  )

  grown-IsCoherent : (q : ℕ) → 2 ≤ q → q < k.buddy_array_pos + 1 + 2 → IsCoherent grown q
  grown-IsCoherent q lo hi = record {
    pairs8 = grown-pair k4 k8 q refl (λ ne. (wf.coherent q lo (omega arith)).pairs8);
    pairs16 = grown-pair k8 k16 q refl (λ ne. (wf.coherent q lo (omega arith)).pairs16);
    pairs32 = grown-pair k16 k32 q refl (λ ne. (wf.coherent q lo (omega arith)).pairs32);
  }

  -- The allocator stays in order, the pages of the new buddy are free, and all others are as before.
  pub kmem_buddy_new_no_alloc-IsWf : Returns (kmem_buddy_new_no_alloc l k) λ k'.
      IsWf l k'
      × (k'.buddy_array_pos ≡ k.buddy_array_pos + 1)
      × ((addr : ℕ)
          → base l ≤ addr
          → page_bit l k'.buddies addr
            ≡ (if buddy_at l addr == k.buddy_array_pos + 2 then 1 else page_bit l k.buddies addr))
  unfolding kmem_buddy_new_no_alloc grown
  kmem_buddy_new_no_alloc-IsWf =
      let fits : ltb (k.buddy_array_pos * 64 % 2 ^ 32) l.buddy_array_size ≡ true = ground arith in
      let next : (k.buddy_array_pos + 1) % 2 ^ 32 ≡ k.buddy_array_pos + 1 = omega arith in
      (
        record k { buddy_array_pos = k.buddy_array_pos + 1; buddies = grown },
        rw fits (ap (λ (n : ℕ). ok (record k { buddy_array_pos = n; buddies = grown })) next),
        (
          record { ready = grown-Ready; coherent = grown-IsCoherent; room = room; low = wf.low },
          refl,
          λ addr le. ground (arith, grown-bit k4 (buddy_at l addr) (page_at l addr)),
        ),
      )
