-- ===== src/Ds/Rbtree/Shape.antt =====
-- kernel/util/ds/rbtree.hpp: the trees that the pointers form, and the order of their keys.
use tinylittleos.Common.{
  ℕ, ◌+◌, ◌<◌, ◌≤◌, ◌≡◌, ◌≢◌, refl, ap, ◌∙◌, Bool, Bool-cases, inl, inr, true, false, ◌||◌, arith,
  ◌==◌, ltb, if◌then◌else◌,
}
use tinylittleos.Ds.Rbtree.{Heap, Sign, negative, nought, positive}

pub data Shape : Type 0 where
  leaf : Shape
  branch : Shape → (node : ℕ) → Shape → Shape

unfoldable pub size : Shape → ℕ
size leaf = 0
size (branch l a r) = size l + size r + 1

-- The node is one of the tree.
unfoldable pub inside : ℕ → Shape → Bool
inside b leaf = false
inside b (branch l a r) = inside b l || (a == b) || inside b r

-- No node stands in the tree twice.
abbrev pub Once : Shape → Type 0
Once leaf = Unit {0}
Once (branch l a r) =
    (inside a l ≡ false)
    × (inside a r ≡ false)
    × ((b : ℕ) → inside b l ≡ true → inside b r ≡ false)
    × Once l
    × Once r

-- The pointers from a node, below a parent, form the tree.
abbrev pub Rep : Heap → (parent node : ℕ) → Shape → Type 0
Rep h parent node leaf = node ≡ 0
Rep h parent node (branch l a r) =
    (node ≡ a)
    × (a ≢ 0)
    × ((h a).m_parent ≡ parent)
    × Rep h a (h a).m_left l
    × Rep h a (h a).m_right r

pub Rep-frame :
    (h h' : Heap) (s : Shape) (parent node : ℕ)
    → ((b : ℕ) → inside b s ≡ true → h' b ≡ h b)
    → Rep h parent node s
    → Rep h' parent node s
unfolding inside
Rep-frame h h' leaf parent node same w = w
Rep-frame h h' (branch l a r) parent node same (e, nz, up, wl, wr) =
    let at : h' a ≡ h a = same a (ground arith) in
    (
      e,
      nz,
      ap (λ n. n.m_parent) at ∙ up,
      rw at (Rep-frame h h' l a (h a).m_left (λ b i. same b (ground arith)) wl),
      rw at (Rep-frame h h' r a (h a).m_right (λ b i. same b (ground arith)) wr),
    )

-- 0 is no node of the tree.
pub inside-ne-null :
    (h : Heap) (s : Shape) (parent node : ℕ) → Rep h parent node s → inside 0 s ≡ false
unfolding inside
inside-ne-null h leaf parent node w = refl
inside-ne-null h (branch l a r) parent node (e, nz, up, wl, wr) =
    ground (arith, inside-ne-null h l a (h a).m_left wl, inside-ne-null h r a (h a).m_right wr)

module _ (key : ℕ → ℕ) where
  -- `compare` with a key.
  unfoldable pub compare_key : (k node : ℕ) → Sign
  compare_key k node =
      if ltb k (key node) then negative else if ltb (key node) k then positive else nought

  -- The keys are in order, from `lo` up to below `hi`.
  abbrev pub Between : (lo hi : ℕ) → Shape → Type 0
  Between lo hi leaf = Unit {0}
  Between lo hi (branch l a r) =
      (lo ≤ key a) × (key a < hi) × Between lo (key a) l × Between (key a + 1) hi r

  pub Between-inside :
      (lo hi : ℕ) (s : Shape) (b : ℕ)
      → Between lo hi s
      → inside b s ≡ true
      → (lo ≤ key b) × (key b < hi)
  unfolding inside
  Between-inside lo hi leaf b w i = absurd (ground arith)
  Between-inside lo hi (branch l a r) b (h1, h2, wl, wr) i = ground (
    arith,
    Between-inside lo (key a) l b wl,
    Between-inside (key a + 1) hi r b wr,
    ap key {x = a} {y = b},
  )

  -- The three results of `compare`.
  pub data Compares (k a : ℕ) : Type 0 where
    smaller : k < key a → compare_key k a ≡ negative → Compares k a
    same : key a ≡ k → compare_key k a ≡ nought → Compares k a
    larger : key a < k → compare_key k a ≡ positive → Compares k a

  pub compares : (k a : ℕ) → Compares k a
  unfolding compare_key
  compares k a = elim (Bool-cases (ltb k (key a))) [
    | inl lt ↦ smaller (ground arith) (rw lt)
    | inr ge ↦ elim (Bool-cases (ltb (key a) k)) [
      | inl gt ↦ larger (ground arith) (rw (ge, gt))
      | inr le ↦ same (ground arith) (rw (ge, le))
    ]
  ]

-- A node of a tree is not null.
pub not-null : (node a : ℕ) → node ≡ a → a ≢ 0 → (node == 0) ≡ false
not-null node a e nz = ground arith
