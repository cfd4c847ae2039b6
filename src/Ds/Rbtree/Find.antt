-- ===== src/Ds/Rbtree/Find.antt =====
-- kernel/util/ds/rbtree.hpp: `find`.
use tinylittleos.Common.{
  ℕ, zero, suc, ◌+◌, ◌<◌, ◌≡◌, ◌≢◌, ◌⊎◌, inl, inr, refl, sym, subst, ap, true, arith, ◌==◌,
}
use tinylittleos.Common.Run.{Returns}
use tinylittleos.Ds.Rbtree.{Heap, Rbtree, find}
use tinylittleos.Ds.Rbtree.Shape.{
  Shape, leaf, branch, size, inside, Rep, compare_key, Between, Between-inside, smaller, same,
  larger, compares, not-null,
}

-- The node of the tree with the key, or none has it.
abbrev pub Finds : (key : ℕ → ℕ) (k : ℕ) → Shape → ℕ → Type 0
Finds key k s found =
    ((inside found s ≡ true) × (key found ≡ k))
    ⊎ ((found ≡ 0) × ((b : ℕ) → inside b s ≡ true → key b ≢ k))

-- The nodes of the other subtree do not have the key.
Finds-left :
    (key : ℕ → ℕ) (k hi : ℕ) (l : Shape) (a : ℕ) (r : Shape) (found : ℕ)
    → k < key a
    → Between key (key a + 1) hi r
    → Finds key k l found
    → Finds key k (branch l a r) found
unfolding inside
Finds-left key k hi l a r found lt o (inl (i, e)) = inl (ground arith, e)
Finds-left key k hi l a r found lt o (inr (e, none_)) = inr (
  e,
  λ b i. ground (arith, none_ b, Between-inside key (key a + 1) hi r b o, ap key {x = a} {y = b}),
)

Finds-right :
    (key : ℕ → ℕ) (k lo : ℕ) (l : Shape) (a : ℕ) (r : Shape) (found : ℕ)
    → key a < k
    → Between key lo (key a) l
    → Finds key k r found
    → Finds key k (branch l a r) found
unfolding inside
Finds-right key k lo l a r found lt o (inl (i, e)) = inl (ground arith, e)
Finds-right key k lo l a r found lt o (inr (e, none_)) =
    inr (
      e,
      λ b i. ground (arith, none_ b, Between-inside key lo (key a) l b o, ap key {x = a} {y = b}),
    )

find-Rep :
    (key : ℕ → ℕ) (k fuel lo hi : ℕ) (s : Shape) (parent node : ℕ) (h : Heap)
    → size s < fuel
    → Rep h parent node s
    → Between key lo hi s
    → Returns (find fuel (compare_key key k) node h) (Finds key k s)
unfolding find size inside
find-Rep key k zero lo hi s parent node h lt w o = absurd (omega arith)
find-Rep key k (suc fuel) lo hi leaf parent node h lt w o =
    let e : (node == 0) ≡ true = ground arith in (0, rw e, inr (refl, λ b i. ground arith))
find-Rep key k (suc fuel) lo hi (branch l a r) parent node h lt (e, nz, up, wl, wr)
      (o1, o2, ol, or_) =
    let at_node =
      λ (n : ℕ). Returns (find (suc fuel) (compare_key key k) n h) (Finds key k (branch l a r)) in
    subst at_node (sym e) (
      rw (not-null a a refl nz) (elim (compares key k a) [
        | smaller below is ↦
            let (b, run, post) =
              find-Rep key k fuel lo (key a) l a (h a).m_left h (omega arith) wl ol in
            rw is (b, run, Finds-left key k hi l a r b below or_ post)
        | same at is ↦ rw is (a, refl, inl (ground arith, at))
        | larger above is ↦
            let (b, run, post) =
              find-Rep key k fuel (key a + 1) hi r a (h a).m_right h (omega arith) wr or_ in
            rw is (b, run, Finds-right key k lo l a r b above ol post)
      ]))

-- With fuel for its nodes, `find` in a search tree ends; it returns the node with the key, or null
-- if no node has it.
pub find-Finds :
    (key : ℕ → ℕ) (k fuel lo hi : ℕ) (s : Shape) (t : Rbtree)
    → size s < fuel
    → Rep t.heap 0 t.m_root s
    → Between key lo hi s
    → Returns (find fuel (compare_key key k) t.m_root t.heap) (Finds key k s)
find-Finds key k fuel lo hi s t lt w o = find-Rep key k fuel lo hi s 0 t.m_root t.heap lt w o
