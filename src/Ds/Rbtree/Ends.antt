-- ===== src/Ds/Rbtree/Ends.antt =====
-- kernel/util/ds/rbtree.hpp: `first` and `last`.
use tinylittleos.Common.{ℕ, zero, suc, ◌+◌, ◌<◌, ◌≤◌, ◌≡◌, refl, ap, true, false, arith, ◌==◌}
use tinylittleos.Common.Run.{Returns}
use tinylittleos.Ds.Rbtree.{Heap, Rbtree, Dir, left, right, far, first, last}
use tinylittleos.Ds.Rbtree.Shape.{
  Shape, leaf, branch, size, inside, Rep, Between, Between-inside, not-null,
}

-- No other key lies further in the direction.
abbrev pub Beyond : (key : ℕ → ℕ) → Dir → (found b : ℕ) → Type 0
Beyond key left found b = key found ≤ key b
Beyond key right found b = key b ≤ key found

abbrev pub Extreme : (key : ℕ → ℕ) → Dir → Shape → ℕ → Type 0
Extreme key dir s found =
    (inside found s ≡ true) × ((b : ℕ) → inside b s ≡ true → Beyond key dir found b)

null-leaf :
    (h : Heap) (parent node : ℕ) (s : Shape) → Rep h parent node s → (node == 0) ≡ true → s ≡ leaf
null-leaf h parent node leaf w e = refl
null-leaf h parent node (branch l a r) w e = absurd (ground (arith, w.0, w.1))

far-Extreme :
    (key : ℕ → ℕ) (dir : Dir) (fuel lo hi : ℕ) (l : Shape) (a : ℕ) (r : Shape) (parent node : ℕ)
    (h : Heap)
    → size (branch l a r) < fuel
    → Rep h parent node (branch l a r)
    → Between key lo hi (branch l a r)
    → Returns (far fuel dir node h) (Extreme key dir (branch l a r))
unfolding far size inside
far-Extreme key dir zero lo hi l a r parent node h lt w o = absurd (omega arith)
far-Extreme key left (suc fuel) lo hi leaf a r parent node h lt w o =
    let e : ((h node).m_left == 0) ≡ true = ground (arith, w.0, w.3, ap h w.0) in
    rw e (
      node,
      refl,
      (ground (arith, w.0), λ b i. ground (arith, w.0, Between-inside key (key a + 1) hi r b o.3)),
    )
far-Extreme key right (suc fuel) lo hi l a leaf parent node h lt w o =
    let e : ((h node).m_right == 0) ≡ true = ground (arith, w.0, w.4, ap h w.0) in
    rw e (
      node,
      refl,
      (ground (arith, w.0), λ b i. ground (arith, w.0, Between-inside key lo (key a) l b o.2)),
    )
far-Extreme key left (suc fuel) lo hi (branch l2 b r2) a r parent node h lt w o =
    let at : h node ≡ h a = ap h w.0 in
    let e : ((h a).m_left == 0) ≡ false = not-null (h a).m_left b w.3.0 w.3.1 in
    let (found, run, (i, best)) =
      far-Extreme key left fuel lo (key a) l2 b r2 a (h a).m_left h (omega arith) w.3 o.2 in
    rw (at, e)
      (
        found,
        run,
        (
          ground arith,
          λ c j. ground (
            arith,
            best c,
            Between-inside key lo (key a) (branch l2 b r2) found o.2,
            Between-inside key (key a + 1) hi r c o.3,
            ap key {x = a} {y = c},
          ),
        ),
      )
far-Extreme key right (suc fuel) lo hi l a (branch l2 b r2) parent node h lt w o =
    let at : h node ≡ h a = ap h w.0 in
    let e : ((h a).m_right == 0) ≡ false = not-null (h a).m_right b w.4.0 w.4.1 in
    let (found, run, (i, best)) =
      far-Extreme key right fuel (key a + 1) hi l2 b r2 a (h a).m_right h (omega arith) w.4 o.3 in
    rw (at, e)
      (
        found,
        run,
        (
          ground arith,
          λ c j. ground (
            arith,
            best c,
            Between-inside key (key a + 1) hi (branch l2 b r2) found o.3,
            Between-inside key lo (key a) l c o.2,
            ap key {x = a} {y = c},
          ),
        ),
      )

-- What `first` and `last` give.
abbrev pub End : (key : ℕ → ℕ) → Dir → Shape → ℕ → Type 0
End key dir leaf found = found ≡ 0
End key dir (branch l a r) found = Extreme key dir (branch l a r) found

-- With fuel for the nodes of a search tree, `first` ends and returns the node with the smallest key
-- and `last` the one with the largest, or null if there is none.
pub first-last-End :
    (key : ℕ → ℕ) (fuel lo hi : ℕ) (s : Shape) (t : Rbtree)
    → size s < fuel
    → Rep t.heap 0 t.m_root s
    → Between key lo hi s
    → Returns (first fuel t) (End key left s) × Returns (last fuel t) (End key right s)
unfolding first last
first-last-End key fuel lo hi leaf t lt w o =
    let e : (t.m_root == 0) ≡ true = ground arith in rw e ((0, refl, refl), (0, refl, refl))
first-last-End key fuel lo hi (branch l a r) t lt w o = rw (not-null t.m_root a w.0 w.1) (
  far-Extreme key left fuel lo hi l a r 0 t.m_root t.heap lt w o,
  far-Extreme key right fuel lo hi l a r 0 t.m_root t.heap lt w o,
)
