-- ===== src/Memory/Buddy/Marks.antt =====
-- kernel/memory/page_allocator.cpp: `mark_alloc_kN` and `mark_free_kN`, the bitmap and the list.
use tinylittleos.Common.{
  ℕ, ◌+◌, ◌<◌, ◌≤◌, ◌≡◌, refl, ap, ◌∙◌, inl, inr, Bool, true, false, not, ◌&&◌, ◌||◌, List, arith,
  ◌==◌, if◌then◌else◌, leb, ltb, Bool-cases,
}
use tinylittleos.Common.Words.{digit}
use tinylittleos.Common.Run.{Returns}
use tinylittleos.Memory.Buddy.{
  Size, Heap, update, null, unlink, link, all_zero, mark_alloc, mark_free,
}
use tinylittleos.Memory.Buddy.Words.{
  width, IsMap, all_zero_iff, Changes, set_digit-Changes, clear_digit-Clears,
}
use tinylittleos.Memory.Buddy.Links.{
  Linked, same-Linked, unlink_absent, unlink-Linked, link-Linked, unlink-words, link-words,
}

-- `p` is one of the `n` buddies, and has a free block of the size.
abbrev pub nonempty : ℕ → Heap → ℕ → Bool
nonempty n h p = leb 2 p && ltb p (n + 2) && not (all_zero (h p).words)

-- The members of one size are in order: the bitmaps have their shape, and the list holds exactly
-- the buddies with a free block.
pub record Good (size : Size) (n : ℕ) (h : Heap) : Type 0 where
  pub maps : (p : ℕ) → 2 ≤ p → p < n + 2 → IsMap size (h p).words
  pub lists : Linked n (nonempty n h) h

-- From `h` to `h'` the bit of one block becomes `v`, and nothing else changes.
pub record Marks (size : Size) (n this index v : ℕ) (h h' : Heap) : Type 0 where
  pub good : Good size n h'
  pub bits :
      (q i : ℕ)
      → digit (h' q).words i ≡ (if (q == this) && (i == index) then v else digit (h q).words i)

module _ (size : Size) (n this index : ℕ) (h : Heap) (g : Good size n h) (lo : 2 ≤ this)
    (hi : this < n + 2) (lt : index < width size) where
  -- The heap with new words for `this`.
  rewritten : List ℕ → Heap
  rewritten words = update h this (record (h this) { words = words })

  module _ (v : ℕ) (words : List ℕ) (c : Changes size index v (h this).words words) (h' : Heap)
      (kept : (q : ℕ) → (h' q).words ≡ (rewritten words q).words) where
    Marks-of : Linked n (nonempty n h') h' → Marks size n this index v h h'
    unfolding rewritten
    Marks-of l = record {
      good = record { maps = λ p lo' hi'. rw (kept p) (pick p lo' hi'); lists = l };
      bits = λ q i. ap (λ ws. digit ws i) (kept q) ∙ ground (arith, c.digits i);
    }
      where
        pick : (p : ℕ) → 2 ≤ p → p < n + 2 → IsMap size (rewritten words p).words
        pick p lo' hi' = elim (Bool-cases (p == this)) [
          | inl e ↦ rw e c.map
          | inr ne ↦ rw ne (g.maps p lo' hi')
        ]

  -- New words alone leave the list as it is.
  rewritten-Linked : (words : List ℕ) → Linked n (nonempty n h) (rewritten words)
  unfolding rewritten
  rewritten-Linked words =
      same-Linked n (nonempty n h) (nonempty n h) h (rewritten words) (λ r. ground arith)
        (λ r. refl) g.lists

  -- If the bitmap is all 0 after a bit was set to `v = 0`, nothing is left of it; clearing a bit of
  -- an all-0 bitmap leaves it all 0.
  all_zero_mono :
      (words : List ℕ)
      → Changes size index 0 (h this).words words
      → all_zero (h this).words ≡ true
      → all_zero words ≡ true
  all_zero_mono words c e = (all_zero_iff size words c.map).1 (λ j.
      ground (arith, c.digits j, (all_zero_iff size (h this).words (g.maps this lo hi)).0 e j))

  settle-Linked :
      (words : List ℕ)
      → Changes size index 0 (h this).words words
      → let h' = if all_zero words then unlink this (rewritten words) else rewritten words in
        Linked n (nonempty n h') h'
  unfolding rewritten
  settle-Linked words c = elim (Bool-cases (all_zero words)) [
    | inl empty ↦ rw empty (elim (Bool-cases (all_zero (h this).words)) [
      | inl was ↦
          same-Linked n (nonempty n h) (nonempty n (unlink this (rewritten words)))
            (rewritten words) (unlink this (rewritten words))
            (unlink_absent n (nonempty n h) (rewritten words) (rewritten-Linked words) this lo hi
              (ground arith))
            (λ r. ground (arith, ap all_zero (unlink-words this (rewritten words) r)))
            (rewritten-Linked words)
      | inr some ↦
          same-Linked n (λ r. nonempty n h r && not (r == this))
            (nonempty n (unlink this (rewritten words))) (unlink this (rewritten words))
            (unlink this (rewritten words)) (λ r. (refl, refl))
            (λ r. ground (arith, ap all_zero (unlink-words this (rewritten words) r)))
            (unlink-Linked n (nonempty n h) (rewritten words) (rewritten-Linked words) this lo hi
              (ground arith))
    ])
    | inr full ↦ rw full (
        same-Linked n (nonempty n h) (nonempty n (rewritten words)) (rewritten words)
          (rewritten words) (λ r. (refl, refl)) (λ r. ground (arith, all_zero_mono words c))
          (rewritten-Linked words))
  ]

  settled-words :
      (words : List ℕ) (q : ℕ)
      → ((if all_zero words then unlink this (rewritten words) else rewritten words) q).words
        ≡ (rewritten words q).words
  settled-words words q = elim (Bool-cases (all_zero words)) [
    | inl empty ↦ rw empty (unlink-words this (rewritten words) q)
    | inr full ↦ rw full
  ]

  -- `mark_alloc_kN` clears the bit of the block, and returns 0 exactly if it was 0.
  pub mark_alloc-Marks :
      Returns
        (mark_alloc size this index h)
        λ r. ((r.0 == 0) ≡ (digit (h this).words index == 0)) × Marks size n this index 0 h r.1
  unfolding mark_alloc rewritten
  mark_alloc-Marks =
      let (r, run, c) = clear_digit-Clears size index (h this).words lt (g.maps this lo hi) in
      (
        (r.0, if all_zero r.2 then unlink this (rewritten r.2) else rewritten r.2),
        rw run (ground (arith, c.word)),
        (c.was, Marks-of 0 r.2 c.changes _ (settled-words r.2) (settle-Linked r.2 c.changes)),
      )

  -- The list after the first half of `mark_free_kN`, which links `this` if it was not linked.
  linked_heap : Heap
  linked_heap = if ((h this).prev == null) && all_zero (h this).words then link this h else h

  linked-words : (q : ℕ) → (linked_heap q).words ≡ (h q).words
  unfolding linked_heap
  linked-words q = elim (Bool-cases (((h this).prev == null) && all_zero (h this).words)) [
    | inl fresh ↦ rw fresh (link-words this h lo q)
    | inr old ↦ rw old
  ]

  linked_heap-Linked : Linked n (λ r. nonempty n h r || (r == this)) linked_heap
  unfolding linked_heap
  linked_heap-Linked = elim (Bool-cases (all_zero (h this).words)) [
    | inl empty ↦
        rw (empty, alone empty) (link-Linked n (nonempty n h) h g.lists this lo hi (ground arith))
    | inr full ↦
        rw (full, test full)
          (same-Linked n (nonempty n h) (λ r. nonempty n h r || (r == this)) h h (λ r. (refl, refl))
            (λ r. ground arith) g.lists)
  ]
    where
      alone : all_zero (h this).words ≡ true → ((h this).prev == null) ≡ true
      alone e = ground (arith, g.lists.apart this lo hi, g.lists.members this)

      test : all_zero (h this).words ≡ false → (((h this).prev == null) && false) ≡ false
      test e = ground arith

  -- `mark_free_kN` sets the bit of the block.
  pub mark_free-Marks : Returns (mark_free size this index h) (Marks size n this index 1 h)
  unfolding mark_free linked_heap rewritten
  mark_free-Marks =
      let (words, run, c) = set_digit-Changes size index (h this).words lt (g.maps this lo hi) in
      let h' : Heap = update linked_heap this (record (linked_heap this) { words = words }) in
      (
        h',
        rw (linked-words this, run),
        Marks-of 1 words c h' (λ q. ground (arith, linked-words q))
            (same-Linked n (λ r. nonempty n h r || (r == this)) (nonempty n h') linked_heap h'
              (λ r. ground arith) (λ r. ground (arith, ap all_zero (linked-words r), full words c))
              linked_heap-Linked),
      )
    where
      full : (words : List ℕ) → Changes size index 1 (h this).words words → all_zero words ≡ false
      full words c = ground (
        arith,
        λ (e : all_zero words ≡ true). (all_zero_iff size words c.map).0 e index,
        c.digits index,
      )
