-- ===== src/Memory/Buddy/Levels.antt =====
-- kernel/memory/page_allocator.cpp: the four sizes together. Which blocks of one buddy change, as a
-- set of blocks; a block is a size and an index.
use tinylittleos.Common.{
  ℕ, zero, suc, ◌+◌, ◌<◌, ◌≤◌, ◌≡◌, refl, ap, Bool, true, false, ◌&&◌, ◌||◌, arith, ◌==◌,
  if◌then◌else◌, leb, ltb,
}
use tinylittleos.Common.Words.{digit}
use tinylittleos.Common.Run.{ok, Returns}
use tinylittleos.Memory.Buddy.{
  Heap, Size, k4, k8, k16, k32, Buddies, level, with_level, mark, mark_row, unmark, is_free,
}
use tinylittleos.Memory.Buddy.Words.{width, test-digit}
use tinylittleos.Memory.Buddy.Marks.{Good, Marks, mark_alloc-Marks, mark_free-Marks}

abbrev pub bit : Buddies → Size → ℕ → ℕ → ℕ
bit b s q i = digit (level s b q).words i

abbrev pub Ready : ℕ → Buddies → Type 0
Ready n b = (s : Size) → Good s n (level s b)

abbrev pub Blocks : Type 0
Blocks = Size → ℕ → Bool

abbrev pub same : Size → Size → Bool
same k4 k4 = true
same k8 k8 = true
same k16 k16 = true
same k32 k32 = true
same _ _ = false

pub same_self : (s : Size) → same s s ≡ true
same_self k4 = refl
same_self k8 = refl
same_self k16 = refl
same_self k32 = refl

-- In buddy `this` the bits of the blocks `P` become `v`, and nothing else changes.
pub record Paints (n this v : ℕ) (P : Blocks) (b b' : Buddies) : Type 0 where
  pub ready : Ready n b'
  pub bits : (s : Size) (q i : ℕ) → bit b' s q i ≡ (if (q == this) && P s i then v else bit b s q i)

module _ (n this v : ℕ) where
  pub Paints-then :
      (P Q : Blocks) (b b1 b2 : Buddies)
      → Paints n this v P b b1
      → Paints n this v Q b1 b2
      → Paints n this v (λ s i. P s i || Q s i) b b2
  Paints-then P Q b b1 b2 p q = record {
    ready = q.ready;
    bits = λ s r i. ground (arith, p.bits s r i, q.bits s r i);
  }

  -- The set of blocks may be written otherwise, and may grow by blocks whose bit was `v` before.
  pub Paints-grow :
      (P Q : Blocks) (b b' : Buddies)
      → ((s : Size) (i : ℕ) → P s i ≡ true → Q s i ≡ true)
      → ((s : Size) (i : ℕ) → Q s i ≡ true → P s i ≡ false → bit b s this i ≡ v)
      → Paints n this v P b b'
      → Paints n this v Q b b'
  Paints-grow P Q b b' up old p = record {
    ready = p.ready;
    bits = λ s r i.
        ground (arith, p.bits s r i, up s i, old s i, ap (λ q. bit b s q i) {x = r} {y = this});
  }

level-Good :
    (n : ℕ) (size s : Size) (h : Heap) (b : Buddies)
    → Good size n h
    → Good s n (level s b)
    → Good s n (level s (with_level size h b))
level-Good n k4 k4 h b g old = g
level-Good n k8 k8 h b g old = g
level-Good n k16 k16 h b g old = g
level-Good n k32 k32 h b g old = g
level-Good n _ _ h b g old = old

level-bit :
    (size s : Size) (h : Heap) (b : Buddies) (q i : ℕ)
    → bit (with_level size h b) s q i ≡ (if same s size then digit (h q).words i else bit b s q i)
level-bit k4 k4 h b q i = refl
level-bit k8 k8 h b q i = refl
level-bit k16 k16 h b q i = refl
level-bit k32 k32 h b q i = refl
level-bit _ _ h b q i = refl

level-same :
    (size s : Size) (b : Buddies) (q i : ℕ) → same s size ≡ true → bit b s q i ≡ bit b size q i
level-same k4 k4 b q i e = refl
level-same k8 k8 b q i e = refl
level-same k16 k16 b q i e = refl
level-same k32 k32 b q i e = refl
level-same _ _ b q i e = cc

-- One block.
abbrev pub one : Size → ℕ → Blocks
one size index s i = same s size && (i == index)

-- `count` blocks of one size, from `index` on.
abbrev pub row : Size → ℕ → ℕ → Blocks
row size count index s i = same s size && leb index i && ltb i (index + count)

-- A block whose bit was `v` before may be counted in.
pub Paints-add :
    (n this v : ℕ) (P : Blocks) (size : Size) (index : ℕ) (b b' : Buddies)
    → bit b size this index ≡ v
    → Paints n this v P b b'
    → Paints n this v (λ s i. P s i || one size index s i) b b'
Paints-add n this v P size index b b' e =
    Paints-grow n this v P _ b b' (λ s i. ground arith)
      (λ s i q np.
        ground (arith, level-same size s b this i, ap (bit b size this) {x = i} {y = index}))

module _ (n this : ℕ) (lo : 2 ≤ this) (hi : this < n + 2) where
  level-Paints :
      (size : Size) (index v : ℕ) (b : Buddies) (h : Heap)
      → Ready n b
      → Marks size n this index v (level size b) h
      → Paints n this v (one size index) b (with_level size h b)
  level-Paints size index v b h r m = record {
    ready = λ s. level-Good n size s h b m.good (r s);
    bits = λ s q i. ground (arith, level-bit size s h b q i, m.bits q i, level-same size s b q i);
  }

  -- `mark_alloc_kN` on the four sizes: it returns 0 exactly if the bit was 0.
  pub mark-Paints :
      (size : Size) (index : ℕ) (b : Buddies)
      → index < width size
      → Ready n b
      → Returns
          (mark size this index b)
          λ r. ((r.0 == 0) ≡ (bit b size this index == 0)) × Paints n this 0 (one size index) b r.1
  unfolding mark
  mark-Paints size index b lt r =
      let ((res, h), run, (was, m)) =
        mark_alloc-Marks size n this index (level size b) (r size) lo hi lt in
      ((res, with_level size h b), rw run, (was, level-Paints size index 0 b h r m))

  pub unmark-Paints :
      (size : Size) (index : ℕ) (b : Buddies)
      → index < width size
      → Ready n b
      → Returns (unmark size this index b) (Paints n this 1 (one size index) b)
  unfolding unmark
  unmark-Paints size index b lt r =
      let (h, run, m) = mark_free-Marks size n this index (level size b) (r size) lo hi lt in
      (with_level size h b, rw run, level-Paints size index 1 b h r m)

  pub is_free-bit :
      (size : Size) (index : ℕ) (b : Buddies)
      → index < width size
      → Ready n b
      → is_free size this index b ≡ ok (bit b size this index == 1)
  unfolding is_free
  is_free-bit size index b lt r = test-digit size index _ lt ((r size).maps this lo hi)

  pub mark_row-Paints :
      (size : Size) (count index : ℕ) (b : Buddies)
      → index + count ≤ width size
      → Ready n b
      → Returns (mark_row size count this index b) (Paints n this 0 (row size count index) b)
  unfolding mark_row
  mark_row-Paints size zero index b le r =
      (b, refl, record { ready = r; bits = λ s q i. ground arith })
  mark_row-Paints size (suc count) index b le r =
      let ((res, b1), run, (was, p)) = mark-Paints size index b (omega arith) r in
      let (b2, run2, p2) = mark_row-Paints size count (index + 1) b1 (omega arith) p.ready in
      (
        b2,
        rw (run, run2),
        Paints-grow n this 0 _ (row size (suc count) index) b b2 (λ s i. ground arith)
            (λ s i. ground arith)
            (Paints-then n this 0 (one size index) (row size count (index + 1)) b b1 b2 p p2),
      )
