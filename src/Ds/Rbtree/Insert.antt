-- ===== src/Ds/Rbtree/Insert.antt =====
-- kernel/util/ds/rbtree.hpp: `insert`.
use tinylittleos.Common.{
  ℕ, zero, suc, ◌+◌, ◌<◌, ◌≤◌, ◌≡◌, ◌≢◌, ◌⊎◌, inl, inr, refl, sym, subst, ap, ◌∙◌, Bool, Bool-cases,
  true, false, ◌||◌, arith, ◌==◌, ltb, none, some,
}
use tinylittleos.Common.Run.{ok, Returns}
use tinylittleos.Ds.Rbtree.{Heap, Rbtree, Dir, left, right, walk, insert_node, insert}
use tinylittleos.Ds.Rbtree.Shape.{
  Shape, leaf, branch, size, inside, Once, Rep, inside-ne-null, compare_key, Between,
  Between-inside, smaller, same, larger, compares, not-null,
}
use tinylittleos.Ds.Rbtree.Find.{find-Finds}
use tinylittleos.Ds.Rbtree.Walk.{add, hung, new_root, walk-Ends}

-- If a node has the key, the walk finds it.
walk-found :
    (key : ℕ → ℕ) (k fuel lo hi : ℕ) (s : Shape) (parent : ℕ) (dir : Dir) (node : ℕ) (h : Heap)
    (b : ℕ)
    → size s < fuel
    → Rep h parent node s
    → Between key lo hi s
    → inside b s ≡ true
    → key b ≡ k
    → walk fuel (compare_key key k) parent dir node h ≡ ok none
unfolding walk size inside
walk-found key k zero lo hi s parent dir node h b lt w o i e = absurd (omega arith)
walk-found key k (suc fuel) lo hi leaf parent dir node h b lt w o i e = ground arith
walk-found key k (suc fuel) lo hi (branch l a r) parent dir node h b lt w o i e =
    subst (λ n. walk (suc fuel) (compare_key key k) parent dir n h ≡ ok none) (sym w.0)
      (rw (not-null a a refl w.1) (elim (compares key k a) [
        | smaller below is ↦
            let in_l : inside b l ≡ true =
              ground (arith, Between-inside key (key a + 1) hi r b o.3, ap key {x = a} {y = b}) in
            rw is (
              walk-found key k fuel lo (key a) l a left (h a).m_left h b (omega arith) w.3 o.2 in_l
                e)
        | same at is ↦ rw is
        | larger above is ↦
            let in_r : inside b r ≡ true =
              ground (arith, Between-inside key lo (key a) l b o.2, ap key {x = a} {y = b}) in
            rw is (
              walk-found key k fuel (key a + 1) hi r a right (h a).m_right h b (omega arith) w.4 o.3
                in_r e)
      ]))

module _ (key : ℕ → ℕ) (item : ℕ) where
  pub inside-add : (s : Shape) (b : ℕ) → inside b (add key item s) ≡ (inside b s || (item == b))
  unfolding inside add
  inside-add leaf b = ground arith
  inside-add (branch l a r) b = ground (arith, inside-add l b, inside-add r b)

  add-Between :
      (lo hi : ℕ) (s : Shape)
      → Between key lo hi s
      → lo ≤ key item
      → key item < hi
      → ((b : ℕ) → inside b s ≡ true → key b ≢ key item)
      → Between key lo hi (add key item s)
  unfolding add inside
  add-Between lo hi leaf o h1 h2 new = (h1, h2, tt, tt)
  add-Between lo hi (branch l a r) (o1, o2, ol, or_) h1 h2 new =
      elim (Bool-cases (ltb (key item) (key a))) [
        | inl below ↦ rw below (
          o1,
          o2,
          add-Between lo (key a) l ol h1 (ground arith) (λ b i. new b (ground arith)),
          or_,
        )
        | inr above ↦ rw above (
          o1,
          o2,
          ol,
          add-Between (key a + 1) hi r or_ (ground (arith, new a)) h2 (λ b i. new b (ground arith)),
        )
      ]

  add-Once : (s : Shape) → Once s → inside item s ≡ false → Once (add key item s)
  unfolding add inside
  add-Once leaf o out = (refl, refl, λ b i. refl, tt, tt)
  add-Once (branch l a r) (o1, o2, o3, ol, or_) out = elim (Bool-cases (ltb (key item) (key a))) [
    | inl below ↦ rw below (
      ground (arith, inside-add l a),
      o2,
      λ b i. ground (arith, inside-add l b, o3 b, ap (λ c. inside c r) {x = item} {y = b}),
      add-Once l ol (ground arith),
      or_,
    )
    | inr above ↦ rw above (
      o1,
      ground (arith, inside-add r a),
      λ b i. ground (arith, inside-add r b, o3 b, ap (λ c. inside c l) {x = item} {y = b}),
      ol,
      add-Once r or_ (ground arith),
    )
  ]

-- The pointers form the tree, no node stands in it twice, and its keys are in order.
pub record IsTree (key : ℕ → ℕ) (lo hi : ℕ) (t : Rbtree) (s : Shape) : Type 0 where
  pub rep : Rep t.heap 0 t.m_root s
  pub once : Once s
  pub order : Between key lo hi s

-- The result of `insert`: the item is a new node, or another node had its key and nothing changed.
pub data Inserts (key : ℕ → ℕ) (item lo hi : ℕ) (t : Rbtree) (s : Shape) (r : Bool × Rbtree)
    : Type 0 where
  added :
      r.0 ≡ true
      → ((b : ℕ) → inside b s ≡ true → key b ≢ key item)
      → IsTree key lo hi r.1 (add key item s)
      → Inserts key item lo hi t s r
  present :
      r.0 ≡ false
      → r.1 ≡ t
      → (b : ℕ) → inside b s ≡ true
      → key b ≡ key item
      → Inserts key item lo hi t s r

not-null_inside :
    (h : Heap) (s : Shape) (parent node b : ℕ) → Rep h parent node s → inside b s ≡ true → b ≢ 0
not-null_inside h s parent node b w i =
    λ z. ground (arith, inside-ne-null h s parent node w, ap (λ c. inside c s) z)

insert_node-leaf :
    (key : ℕ → ℕ) (item : ℕ) (t : Rbtree)
    → item ≢ 0
    → Rep
        (insert_node item 0 left t).heap
        0
        (insert_node item 0 left t).m_root
        (branch leaf item leaf)
unfolding insert_node
insert_node-leaf key item t nz = (refl, nz, ground arith, ground arith, ground arith)

insert_node-hung :
    (item at : ℕ) (side : Dir) (t : Rbtree)
    → at ≢ 0
    → insert_node item at side t ≡ record { m_root = t.m_root; heap = hung item at side t.heap }
unfolding insert_node
insert_node-hung item at side t nz = let e : (at == 0) ≡ false = ground arith in rw e

inserted-Rep :
    (key : ℕ → ℕ) (item : ℕ)
    → item ≢ 0
    → (s : Shape) (t : Rbtree) (at : ℕ) (side : Dir) → Rep t.heap 0 t.m_root s
    → (inside at s ≡ true) ⊎ ((s ≡ leaf) × (at ≡ 0) × (side ≡ left))
    → Rep (hung item at side t.heap) 0 (new_root item t.m_root s) (add key item s)
    → Rep (insert_node item at side t).heap 0 (insert_node item at side t).m_root (add key item s)
inserted-Rep key item nz leaf t at side w (inl i) rep = absurd (unfold inside in ground arith)
inserted-Rep key item nz leaf t at side w (inr (e, at_root, at_left)) rep =
    rw (at_root, at_left) (unfold add in insert_node-leaf key item t nz)
inserted-Rep key item nz (branch l a r) t at side w (inl i) rep =
    let at_nz : at ≢ 0 = λ z. not-null_inside t.heap (branch l a r) 0 t.m_root at w i z in
    rw (insert_node-hung item at side t at_nz) rep
inserted-Rep key item nz (branch l a r) t at side w (inr p) rep = absurd (ground (arith, p.0))

module _ (key : ℕ → ℕ) (item fuel lo hi : ℕ) (s : Shape) (t : Rbtree) (fits : size s < fuel)
    (nz : item ≢ 0) (out : inside item s ≡ false) (from_lo : lo ≤ key item) (to_hi : key item < hi)
    (w : IsTree key lo hi t s) where
  insert-new :
      ((b : ℕ) → inside b s ≡ true → key b ≢ key item)
      → Returns (insert fuel (compare_key key (key item)) item t) (Inserts key item lo hi t s)
  unfolding insert
  insert-new new =
      let (o, run, e) =
        walk-Ends key item nz fuel lo hi s 0 left t.m_root t.heap fits (λ z. nz (sym z)) w.rep
          w.once w.order out new in
      let run' : walk fuel (compare_key key (key item)) 0 left t.m_root t.heap
          ≡ ok (some (e.at, e.side)) =
        run ∙ ap ok e.end in
      (
        (true, insert_node item e.at e.side t),
        rw run',
        added refl new (record {
          rep = inserted-Rep key item nz s t e.at e.side w.rep e.place e.rep;
          once = add-Once key item s w.once out;
          order = add-Between key item lo hi s w.order from_lo to_hi new;
        }),
      )

  insert-present :
      (b : ℕ)
      → inside b s ≡ true
      → key b ≡ key item
      → insert fuel (compare_key key (key item)) item t ≡ ok (false, t)
  unfolding insert
  insert-present b i e =
      rw (walk-found key (key item) fuel lo hi s 0 left t.m_root t.heap b fits w.rep w.order i e)

  -- In a search tree that the item is not in, with fuel for its nodes, `insert` ends. If a node has the
  -- key of the item, it returns false and changes nothing; otherwise it returns true, and the
  -- pointers form the search tree with the item as a new leaf, where the search for its key ends.
  pub insert-Inserts :
      Returns (insert fuel (compare_key key (key item)) item t) (Inserts key item lo hi t s)
  insert-Inserts =
      let (found, run, post) = find-Finds key (key item) fuel lo hi s t fits w.rep w.order in
      elim post [
        | inl (i, e) ↦ ((false, t), insert-present found i e, present refl refl found i e)
        | inr (e, none_) ↦ insert-new none_
      ]
