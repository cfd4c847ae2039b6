-- ===== src/Memory/Kmem/Grow.antt =====
-- kernel/memory/page_allocator.cpp: `kmem_buddy_new_no_alloc` puts a new buddy, all of it free, at
-- the front of the four lists. It writes the pointers of the new buddy and of the head, not the
-- `prev` of the buddy that was first before.
use tinylittleos.Common.{
  ℕ, suc, zero, ◌+◌, ◌-◌, ◌^◌, ◌<◌, ◌≤◌, ◌≡◌, ◌≢◌, ◌↔◌, refl, ap, false, List, [], ◌∷◌, arith, ◌==◌,
  if◌then◌else◌, Bool-cases, get_or, inl, inr,
}
use tinylittleos.Memory.Buddy.{Size, k4, k8, k16, k32, Heap, head, null, all_zero}
use tinylittleos.Memory.Buddy.Words.{IsMap}
use tinylittleos.Memory.Buddy.Links.{Linked, Chain, has}
use tinylittleos.Memory.Buddy.Marks.{Good, nonempty}
use tinylittleos.Memory.Kmem.{all_free, push_new}
use tinylittleos.Memory.Kmem.Lists.{first_buddy, first-prev, none_free}

Fits : ℕ → List ℕ → Type 0
Fits m ws = (k : ℕ) → get_or ws k 0 < m

module _ (m : ℕ) (pos : 0 < m) where
  Fits-nil : Fits m []
  unfolding Fits get_or
  Fits-nil k = pos

  Fits-cons : (ws : List ℕ) → Fits m ws → Fits m ((m - 1) ∷ ws)
  unfolding Fits get_or
  Fits-cons ws f zero = omega arith
  Fits-cons ws f (suc k) = f k

all_free-IsMap : (size : Size) → IsMap size (all_free size)
unfolding Fits
all_free-IsMap k4 = record {
  count = refl;
  fits = Fits-cons _ p _ (Fits-cons _ p _ (Fits-cons _ p _ (Fits-cons _ p _ (Fits-nil _ p))));
}
  where
    p : 0 < 2 ^ 32
    p = omega arith
all_free-IsMap k8 = record { count = refl; fits = Fits-cons _ p _ (Fits-cons _ p _ (Fits-nil _ p)) }
  where
    p : 0 < 2 ^ 32
    p = omega arith
all_free-IsMap k16 = record { count = refl; fits = Fits-cons _ p _ (Fits-nil _ p) }
  where
    p : 0 < 2 ^ 32
    p = omega arith
all_free-IsMap k32 = record { count = refl; fits = Fits-cons _ p _ (Fits-nil _ p) }
  where
    p : 0 < 2 ^ 16
    p = omega arith

all_free-some : (size : Size) → all_zero (all_free size) ≡ false
unfolding all_zero
all_free-some k4 = refl
all_free-some k8 = refl
all_free-some k16 = refl
all_free-some k32 = refl

-- The bitmaps after a buddy was put in front.
pub push_new-words :
    (size : Size) (n : ℕ) (h : Heap) (p : ℕ)
    → (push_new size (n + 2) h p).words ≡ (if p == n + 2 then all_free size else (h p).words)
unfolding push_new
push_new-words size n h p = ground arith

module _ (size : Size) (n : ℕ) (h : Heap) (g : Good size n h) where
  h' : Heap
  h' = push_new size (n + 2) h

  new-words : (p : ℕ) → (h' p).words ≡ (if p == n + 2 then all_free size else (h p).words)
  unfolding h'
  new-words p = push_new-words size n h p

  new-next :
      (p : ℕ)
      → (h' p).next
        ≡ (if p == head then n + 2 else if p == n + 2 then (h head).next else (h p).next)
  unfolding h' push_new
  new-next p = ground arith

  new-prev : (p : ℕ) → (h' p).prev ≡ (if p == n + 2 then head else (h p).prev)
  unfolding h' push_new
  new-prev p = ground arith

  new-maps : (p : ℕ) → 2 ≤ p → p < n + 1 + 2 → IsMap size (h' p).words
  new-maps p lo hi = elim (Bool-cases (p == n + 2)) [
    | inl own ↦ rw (new-words p, own) (all_free-IsMap size)
    | inr other ↦ rw (new-words p, other) (g.maps p lo (ground arith))
  ]

  -- If the list was not empty, the `prev` of its first buddy is still the head.
  broken : (h head).next ≢ null → (order : List ℕ) → Chain h' head order → ⊥
  broken ne [] c = omega (arith, c, new-next head)
  broken ne (x ∷ []) c = ground (arith, c.0, c.1, c.2, new-next head, new-next x)
  broken ne (x ∷ y ∷ order) c =
      let first = first_buddy n h size g ne in
      ground (
        arith,
        c.0,
        c.2.0,
        c.2.1,
        new-next head,
        new-next x,
        new-prev y,
        first.0,
        first.1,
        first-prev n h size g ne,
        ap (λ p. (h p).prev) {x = y} {y = (h head).next},
      )

  new-nonempty : (h head).next ≡ null → (p : ℕ) → has p ((n + 2) ∷ []) ≡ nonempty (n + 1) h' p
  unfolding has
  new-nonempty e p = ground (
    arith,
    ap all_zero (new-words p),
    ap all_zero {x = all_free size},
    all_free-some size,
    none_free n h size g e p,
  )

  new-Linked : (h head).next ≡ null → Linked (n + 1) (nonempty (n + 1) h') h'
  unfolding has
  new-Linked e = record {
    order = (n + 2) ∷ [];
    real = λ p lt. ground arith;
    chain = (
      ground (arith, new-next head),
      ground (arith, new-prev (n + 2)),
      ground (arith, new-next (n + 2)),
    );
    distinct = (refl, tt);
    members = new-nonempty e;
    apart = λ p lo hi no. ground (
      arith,
      new-next p,
      new-prev p,
      g.lists.apart p lo,
      g.lists.members p,
      none_free n h size g e p,
    );
  }

  -- The lists and bitmaps stay in order exactly if the list was empty.
  pub push_new-Good_iff : Good size (n + 1) (push_new size (n + 2) h) ↔ ((h head).next ≡ null)
  unfolding h'
  push_new-Good_iff = (only, λ e. record { maps = new-maps; lists = new-Linked e })
    where
      only : Good size (n + 1) (push_new size (n + 2) h) → (h head).next ≡ null
      only g' = elim (Bool-cases ((h head).next == null)) [
        | inl nil ↦ ground arith
        | inr some ↦ absurd (broken (ground arith) g'.lists.order g'.lists.chain)
      ]
