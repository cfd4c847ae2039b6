-- ===== src/Memory/Kmem/Lists.antt =====
-- kernel/memory/page_allocator.cpp: what the head of a list says about the buddies.
use tinylittleos.Common.{
  ℕ, ◌+◌, ◌<◌, ◌≤◌, ◌≡◌, ◌≢◌, sym, ◌∙◌, Bool, true, false, List, [], ◌∷◌, arith,
}
use tinylittleos.Memory.Buddy.{Size, Heap, head, null, all_zero}
use tinylittleos.Memory.Buddy.Links.{Chain, has}
use tinylittleos.Memory.Buddy.Marks.{Good, nonempty}

module _ (n : ℕ) (h : Heap) where
  first-linked :
      (linked : ℕ → Bool) (order : List ℕ)
      → Chain h head order
      → ((p : ℕ) → has p order ≡ linked p)
      → (h head).next ≢ null
      → linked (h head).next ≡ true
  unfolding has
  first-linked linked [] c m ne = absurd (ne c)
  first-linked linked (x ∷ xs) c m ne = rw c.0 (sym (m x) ∙ ground arith)

  none-linked :
      (linked : ℕ → Bool) (order : List ℕ)
      → Chain h head order
      → ((p : ℕ) → has p order ≡ linked p)
      → (h head).next ≡ null
      → linked null ≡ false
      → (p : ℕ) → linked p ≡ false
  unfolding has
  none-linked linked [] c m e z p = sym (m p)
  none-linked linked (x ∷ xs) c m e z p = ground (arith, m x, c.0)

  Chain-prev :
      (order : List ℕ) → Chain h head order → (h head).next ≢ null → (h (h head).next).prev ≡ head
  Chain-prev [] c ne = absurd (ne c)
  Chain-prev (x ∷ xs) c ne = rw c.0 c.1

  module _ (size : Size) (g : Good size n h) where
    -- What the head leads to is a buddy with a free block.
    pub first_buddy :
        (h head).next ≢ null
        → (2 ≤ (h head).next) × ((h head).next < n + 2) × (all_zero (h (h head).next).words ≡ false)
    first_buddy ne =
        let e = first-linked (nonempty n h) g.lists.order g.lists.chain g.lists.members ne in
        (ground arith, ground arith, ground arith)

    -- If the list is empty, no buddy has a free block.
    pub none_free : (h head).next ≡ null → (p : ℕ) → 2 ≤ p → p < n + 2 → all_zero (h p).words ≡ true
    none_free e p lo hi = ground (
      arith,
      none-linked (nonempty n h) g.lists.order g.lists.chain g.lists.members e
          (g.lists.real 0 (omega arith)) p,
    )

    pub first-prev : (h head).next ≢ null → (h (h head).next).prev ≡ head
    first-prev ne = Chain-prev g.lists.order g.lists.chain ne
