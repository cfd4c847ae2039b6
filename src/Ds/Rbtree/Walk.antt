-- ===== src/Ds/Rbtree/Walk.antt =====
-- kernel/util/ds/rbtree.hpp: where the loop of `insert` ends.
use tinylittleos.Common.{
  ℕ, zero, suc, ◌+◌, ◌<◌, ◌≡◌, ◌≢◌, ◌⊎◌, inl, inr, refl, sym, subst, ap, ◌∙◌, Bool-cases, true,
  false, arith, ◌==◌, ltb, lt→ltb, if◌then◌else◌, Option, some,
}
use tinylittleos.Common.Run.{Returns}
use tinylittleos.Ds.Rbtree.{Heap, Dir, left, right, child, with_child, set_node, set_child, walk}
use tinylittleos.Ds.Rbtree.Shape.{
  Shape, leaf, branch, size, inside, Once, Rep, Rep-frame, compare_key, Between, smaller, same,
  larger, compares, not-null,
}

-- Insertion into the tree: a new leaf where the search for its key ends.
unfoldable pub add : (key : ℕ → ℕ) (item : ℕ) → Shape → Shape
add key item leaf = branch leaf item leaf
add key item (branch l a r) =
    let at_left = branch (add key item l) a r in
    let at_right = branch l a (add key item r) in
    if ltb (key item) (key a) then at_left else at_right

-- The heap after the item was hung below a parent.
abbrev pub hung : (item parent : ℕ) → Dir → Heap → Heap
hung item parent dir h =
    set_child parent dir item
      (set_node item (record { m_parent = parent; m_left = 0; m_right = 0 }) h)

-- The pointer to the subtree after the item was added.
abbrev pub new_root : (item node : ℕ) → Shape → ℕ
new_root item node leaf = item
new_root item node (branch l a r) = node

-- The walk ends at a node of the subtree, or at its parent if there is none; hanging the item there
-- adds it to the subtree.
pub record Ends (key : ℕ → ℕ) (item : ℕ) (s : Shape) (parent : ℕ) (dir : Dir) (node : ℕ) (h : Heap)
    (o : Option (ℕ × Dir)) : Type 0 where
  pub at : ℕ
  pub side : Dir
  pub end : o ≡ some (at, side)
  pub place : (inside at s ≡ true) ⊎ ((s ≡ leaf) × (at ≡ parent) × (side ≡ dir))
  pub rep : Rep (hung item at side h) parent (new_root item node s) (add key item s)

inside-ne : (s : Shape) (b a : ℕ) → inside b s ≡ true → inside a s ≡ false → a ≢ b
inside-ne s b a i out = ground (arith, ap (λ c. inside c s) {x = a} {y = b})

ne-inside : (s : Shape) (b a : ℕ) → inside b s ≡ true → inside a s ≡ false → b ≢ a
ne-inside s b a i out = λ e. inside-ne s b a i out (sym e)

not_both :
    (b : ℕ) (l r : Shape)
    → (inside b l ≡ true → inside b r ≡ false)
    → inside b r ≡ true
    → inside b l ≡ false
not_both b l r apart i = elim (Bool-cases (inside b l)) [
  | inl yes_ ↦ let no_ = apart yes_ in ground arith
  | inr no_ ↦ no_
]

not_ltb : (a b : ℕ) → b < a → ltb a b ≡ false
not_ltb a b h = ground arith

module _ (key : ℕ → ℕ) (item : ℕ) (nz : item ≢ 0) where
  leaf-Rep :
      (h : Heap) (parent : ℕ) (dir : Dir)
      → parent ≢ item
      → Rep (hung item parent dir h) parent item (branch leaf item leaf)
  leaf-Rep h parent dir ne = (refl, nz, ground arith, ground arith, ground arith)

  hung-outside :
      (at : ℕ) (side : Dir) (h : Heap) (b : ℕ) → b ≢ item → b ≢ at → hung item at side h b ≡ h b
  hung-outside at side h b n1 n2 = ground arith

  -- Hanging the item below changes the child in that direction of the node, if at all.
  hung-above :
      (l : Shape) (a at : ℕ) (side dir : Dir) (node : ℕ) (h : Heap)
      → a ≢ item
      → inside a l ≡ false
      → node ≡ child dir (h a)
      → (inside at l ≡ true) ⊎ ((l ≡ leaf) × (at ≡ a) × (side ≡ dir))
      → hung item at side h a ≡ with_child dir (new_root item node l) (h a)
  unfolding inside
  hung-above leaf a at side left node h ne out e (inl i) = ground arith
  hung-above leaf a at side right node h ne out e (inl i) = ground arith
  hung-above leaf a at side left node h ne out e (inr p) = ground (arith, p.1, p.2)
  hung-above leaf a at side right node h ne out e (inr p) = ground (arith, p.1, p.2)
  hung-above (branch l b r) a at side left node h ne out e (inl i) =
      hung-outside at side h a ne (inside-ne (branch l b r) at a i out)
      ∙ ap (λ n. record (h a) { m_left = n }) (sym e)
  hung-above (branch l b r) a at side right node h ne out e (inl i) =
      hung-outside at side h a ne (inside-ne (branch l b r) at a i out)
      ∙ ap (λ n. record (h a) { m_right = n }) (sym e)
  hung-above (branch l b r) a at side dir node h ne out e (inr p) = ground (arith, p.0)

  a-ne-item : (l : Shape) (a : ℕ) (r : Shape) → inside item (branch l a r) ≡ false → a ≢ item
  unfolding inside
  a-ne-item l a r out = ground arith

  -- From a subtree to the tree.
  module _ (l : Shape) (a : ℕ) (r : Shape) (parent : ℕ) (dir : Dir) (h : Heap)
      (o : Option (ℕ × Dir)) (w : Rep h parent a (branch l a r)) (once : Once (branch l a r))
      (out : inside item (branch l a r) ≡ false) where
    lift_left :
        key item < key a
        → Ends key item l a left (h a).m_left h o
        → Ends key item (branch l a r) parent dir a h o
    unfolding inside add
    lift_left below e =
        let above =
          hung-above l a e.at e.side left (h a).m_left h (a-ne-item l a r out) once.0 refl
            e.place in
        let at_out : inside e.at r ≡ false = elim e.place [
          | inl i ↦ once.2 e.at i
          | inr p ↦ ap (λ c. inside c r) p.1 ∙ once.1
        ] in
        record {
          at = e.at;
          side = e.side;
          end = e.end;
          place = inl (elim e.place [ inl i ↦ ground arith | inr p ↦ ground (arith, p.1) ]);
          rep = rw (lt→ltb _ _ below) (
            refl,
            w.1,
            ap (λ n. n.m_parent) above ∙ w.2,
            rw above e.rep,
            rw above (
                Rep-frame h (hung item e.at e.side h) r a (h a).m_right
                  (λ b i.
                    hung-outside e.at e.side h b (ne-inside r b item i (ground arith))
                      (ne-inside r b e.at i at_out))
                  w.4),
          );
        }

    lift_right :
        key a < key item
        → Ends key item r a right (h a).m_right h o
        → Ends key item (branch l a r) parent dir a h o
    unfolding inside add
    lift_right below e =
        let above =
          hung-above r a e.at e.side right (h a).m_right h (a-ne-item l a r out) once.1 refl
            e.place in
        let at_out : inside e.at l ≡ false = elim e.place [
          | inl i ↦ not_both e.at l r (once.2 e.at) i
          | inr p ↦ ap (λ c. inside c l) p.1 ∙ once.0
        ] in
        record {
          at = e.at;
          side = e.side;
          end = e.end;
          place = inl (elim e.place [ inl i ↦ ground arith | inr p ↦ ground (arith, p.1) ]);
          rep = rw (not_ltb _ _ below) (
            refl,
            w.1,
            ap (λ n. n.m_parent) above ∙ w.2,
            rw above (
                Rep-frame h (hung item e.at e.side h) l a (h a).m_left
                  (λ b i.
                    hung-outside e.at e.side h b (ne-inside l b item i (ground arith))
                      (ne-inside l b e.at i at_out))
                  w.3),
            rw above e.rep,
          );
        }

  pub walk-Ends :
      (fuel lo hi : ℕ) (s : Shape) (parent : ℕ) (dir : Dir) (node : ℕ) (h : Heap)
      → size s < fuel
      → parent ≢ item
      → Rep h parent node s
      → Once s
      → Between key lo hi s
      → inside item s ≡ false
      → ((b : ℕ) → inside b s ≡ true → key b ≢ key item)
      → Returns
          (walk fuel (compare_key key (key item)) parent dir node h)
          (Ends key item s parent dir node h)
  unfolding walk size
  walk-Ends zero lo hi s parent dir node h lt pi w once o out new = absurd (omega arith)
  walk-Ends (suc fuel) lo hi leaf parent dir node h lt pi w once o out new =
      let e : (node == 0) ≡ true = ground arith in
      (
        some (parent, dir),
        rw e,
        record {
          at = parent;
          side = dir;
          end = refl;
          place = inr (refl, refl, refl);
          rep = unfold add in leaf-Rep h parent dir pi;
        },
      )
  walk-Ends (suc fuel) lo hi (branch l a r) parent dir node h lt pi w once o out new =
      subst
        (λ n.
          Returns (walk (suc fuel) (compare_key key (key item)) parent dir n h)
            (Ends key item (branch l a r) parent dir n h))
        (sym w.0)
        (rw (not-null a a refl w.1) (elim (compares key (key item) a) [
          | smaller below is ↦
              let (found, run, e) =
                walk-Ends fuel lo (key a) l a left (h a).m_left h (unfold size in omega arith)
                  (a-ne-item l a r out) w.3 once.3 o.2 (unfold inside in ground arith)
                  (λ b i. new b (unfold inside in ground arith)) in
              rw is (
                found,
                run,
                lift_left l a r parent dir h found (refl, w.1, w.2, w.3, w.4) once out below e,
              )
          | same at is ↦ absurd (new a (unfold inside in ground arith) at)
          | larger above is ↦
              let (found, run, e) =
                walk-Ends fuel (key a + 1) hi r a right (h a).m_right h (unfold size in omega arith)
                  (a-ne-item l a r out) w.4 once.4 o.3 (unfold inside in ground arith)
                  (λ b i. new b (unfold inside in ground arith)) in
              rw is (
                found,
                run,
                lift_right l a r parent dir h found (refl, w.1, w.2, w.3, w.4) once out above e,
              )
        ]))
