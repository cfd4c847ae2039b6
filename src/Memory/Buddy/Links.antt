-- ===== src/Memory/Buddy/Links.antt =====
-- kernel/memory/page_allocator.cpp: the doubly linked list of the buddies with a free block of one
-- size, and what "link to kN" and "unlink from kN" do to it.
use tinylittleos.Common.{
  ℕ, ◌+◌, ◌<◌, ◌≤◌, ◌≡◌, refl, subst, sym, ◌∙◌, ◌⊎◌, inl, inr, Bool, true, false, not, ◌&&◌, ◌||◌,
  List, [], ◌∷◌, arith, ◌==◌, if◌then◌else◌, Bool-cases,
}
use tinylittleos.Memory.Buddy.{Heap, head, null, unlink, link}

unfoldable pub has : ℕ → List ℕ → Bool
has a [] = false
has a (x ∷ xs) = (x == a) || has a xs

erase : ℕ → List ℕ → List ℕ
erase a [] = []
erase a (x ∷ xs) = if x == a then xs else x ∷ erase a xs

abbrev pub Distinct : List ℕ → Type 0
Distinct [] = Unit
Distinct (x ∷ xs) = (has x xs ≡ false) × Distinct xs

-- From `q` the `next` pointers lead through `xs` to null, and the `prev` pointers back.
abbrev pub Chain : Heap → ℕ → List ℕ → Type 0
Chain h q [] = (h q).next ≡ null
Chain h q (x ∷ xs) = ((h q).next ≡ x) × ((h x).prev ≡ q) × Chain h x xs

-- The list from the head holds exactly the nodes with `linked`; any other of the `n` buddies
-- stands alone.
pub record Linked (n : ℕ) (linked : ℕ → Bool) (h : Heap) : Type 0 where
  pub order : List ℕ
  pub real : (p : ℕ) → p < 2 → linked p ≡ false
  pub chain : Chain h head order
  pub distinct : Distinct order
  pub members : (p : ℕ) → has p order ≡ linked p
  pub apart :
      (p : ℕ) → 2 ≤ p → p < n + 2 → has p order ≡ false → ((h p).prev ≡ null) × ((h p).next ≡ null)

Chain-frame :
    (h h' : Heap) (q : ℕ) (xs : List ℕ)
    → ((r : ℕ) → has r (q ∷ xs) ≡ true → (h' r).next ≡ (h r).next)
    → ((r : ℕ) → has r xs ≡ true → (h' r).prev ≡ (h r).prev)
    → Chain h q xs
    → Chain h' q xs
unfolding has
Chain-frame h h' q [] nexts prevs c = nexts q (ground arith) ∙ c
Chain-frame h h' q (x ∷ xs) nexts prevs c = (
  nexts q (ground arith) ∙ c.0,
  prevs x (ground arith) ∙ c.1,
  Chain-frame h h' x xs (λ r i. nexts r (ground arith)) (λ r i. prevs r (ground arith)) c.2,
)

prev_mem :
    (h : Heap) (q p : ℕ) (xs : List ℕ)
    → Chain h q xs
    → has p xs ≡ true
    → has (h p).prev (q ∷ xs) ≡ true
unfolding has
prev_mem h q p [] c i = cc
prev_mem h q p (x ∷ xs) c i = ground (arith, prev_mem h x p xs c.2)

next_mem :
    (h : Heap) (q p : ℕ) (xs : List ℕ)
    → Chain h q xs
    → has p (q ∷ xs) ≡ true
    → ((h p).next ≡ null) ⊎ (has (h p).next xs ≡ true)
unfolding has
next_mem h q p [] c i = inl (ground arith)
next_mem h q p (x ∷ xs) c i = ground (arith, next_mem h x p xs c.2)

has-erase : (r p : ℕ) (xs : List ℕ) → Distinct xs → has r (erase p xs) ≡ (has r xs && not (r == p))
unfolding has erase
has-erase r p [] d = refl
has-erase r p (x ∷ xs) d = ground (arith, has-erase r p xs d.1)

Distinct-erase : (p : ℕ) (xs : List ℕ) → Distinct xs → Distinct (erase p xs)
unfolding erase
Distinct-erase p [] d = tt
Distinct-erase p (x ∷ xs) d = ground (arith, has-erase x p xs d.1, Distinct-erase p xs d.1)

module _ (p : ℕ) (h : Heap) where
  unlink-next :
      (r : ℕ)
      → (unlink p h r).next ≡ (
          if r == p
          then null
          else if (r == (h p).prev) && not (r == null)
          then (h p).next
          else (h r).next)
  unfolding unlink
  unlink-next r = ground arith

  unlink-prev :
      (r : ℕ)
      → (unlink p h r).prev ≡ (
          if r == p
          then null
          else if (r == (h p).next) && not (r == null)
          then (h p).prev
          else (h r).prev)
  unfolding unlink
  unlink-prev r = ground arith

  pub unlink-words : (r : ℕ) → (unlink p h r).words ≡ (h r).words
  unfolding unlink
  unlink-words r = ground arith

module _ (p : ℕ) (h : Heap) where
  unlink_first :
      (q : ℕ) (xs : List ℕ)
      → Chain h q (p ∷ xs)
      → Distinct (q ∷ p ∷ xs)
      → has null (q ∷ p ∷ xs) ≡ false
      → Chain (unlink p h) q xs
  unfolding has
  unlink_first q [] c d z = ground (arith, unlink-next p h q)
  unlink_first q (y ∷ ys) c d z = (
    ground (arith, unlink-next p h q),
    ground (arith, unlink-prev p h y),
    Chain-frame h (unlink p h) y ys (λ r i. ground (arith, unlink-next p h r))
        (λ r i. ground (arith, unlink-prev p h r)) c.2.2,
  )

  unlink-Chain :
      (q : ℕ) (xs : List ℕ)
      → Chain h q xs
      → Distinct (q ∷ xs)
      → has null (q ∷ xs) ≡ false
      → has p xs ≡ true
      → Chain (unlink p h) q (erase p xs)
  unfolding has erase
  unlink-Chain q [] c d z i = cc
  unlink-Chain q (x ∷ xs) c d z i = elim (Bool-cases (x == p)) [
    | inl hit ↦ rw hit (
        let e : x ≡ p = ground arith in
        unlink_first q xs (subst (λ y. Chain h q (y ∷ xs)) e c)
          (subst (λ y. Distinct (q ∷ y ∷ xs)) e d) (subst (λ y. has null (q ∷ y ∷ xs) ≡ false) e z))
    | inr miss ↦ rw miss (
      ground (arith, unlink-next p h q, prev_mem h x p xs c.2),
      ground (arith, unlink-prev p h x, next_mem h x p xs c.2),
      unlink-Chain x xs c.2 d.1 (ground arith) (ground arith),
    )
  ]

module _ (this : ℕ) (h : Heap) (real : 2 ≤ this) where
  link-next :
      (r : ℕ)
      → (link this h r).next
        ≡ (if r == head then this else if r == this then (h head).next else (h r).next)
  unfolding link
  link-next r = ground arith

  link-prev :
      (r : ℕ)
      → (link this h r).prev ≡ (
          if r == this
          then head
          else if (r == (h head).next) && not (r == null)
          then this
          else (h r).prev)
  unfolding link
  link-prev r = ground arith

  pub link-words : (r : ℕ) → (link this h r).words ≡ (h r).words
  unfolding link
  link-words r = ground arith

  link-Chain :
      (xs : List ℕ)
      → Chain h head xs
      → has this xs ≡ false
      → has head xs ≡ false
      → has null xs ≡ false
      → Distinct xs
      → Chain (link this h) head (this ∷ xs)
  unfolding has
  link-Chain [] c out a z d = (
    ground (arith, link-next head),
    ground (arith, link-prev this),
    ground (arith, link-next this),
  )
  link-Chain (y ∷ ys) c out a z d = (
    ground (arith, link-next head),
    ground (arith, link-prev this),
    (
      ground (arith, link-next this),
      ground (arith, link-prev y),
      Chain-frame h (link this h) y ys (λ r i. ground (arith, link-next r))
          (λ r i. ground (arith, link-prev r)) c.2,
    ),
  )

-- What a change of the heap that keeps the pointers does to the list.
pub same-Linked :
    (n : ℕ) (linked linked' : ℕ → Bool) (h h' : Heap)
    → ((r : ℕ) → ((h' r).next ≡ (h r).next) × ((h' r).prev ≡ (h r).prev))
    → ((r : ℕ) → linked' r ≡ linked r)
    → Linked n linked h
    → Linked n linked' h'
same-Linked n linked linked' h h' same e l = record {
  order = l.order;
  real = λ p lt. e p ∙ l.real p lt;
  chain = Chain-frame h h' head l.order (λ r i. (same r).0) (λ r i. (same r).1) l.chain;
  distinct = l.distinct;
  members = λ p. l.members p ∙ sym (e p);
  apart = λ p lo hi out. ground (arith, same p, l.apart p lo hi out);
}

module _ (n : ℕ) (linked : ℕ → Bool) (h : Heap) (l : Linked n linked h) (p : ℕ) (lo : 2 ≤ p)
    (hi : p < n + 2) where
  -- Unlinking a buddy that is not in the list changes nothing.
  pub unlink_absent :
      linked p ≡ false
      → (r : ℕ) → ((unlink p h r).next ≡ (h r).next) × ((unlink p h r).prev ≡ (h r).prev)
  unlink_absent out r =
      let a = l.apart p lo hi (l.members p ∙ out) in
      (ground (arith, unlink-next p h r), ground (arith, unlink-prev p h r))

  pub unlink-Linked : linked p ≡ true → Linked n (λ r. linked r && not (r == p)) (unlink p h)
  unfolding has
  unlink-Linked inside = record {
    order = erase p l.order;
    real = λ r lt. ground (arith, l.real r lt);
    chain =
        unlink-Chain p h head l.order l.chain
          (l.members head ∙ l.real head (omega arith), l.distinct)
          (ground (arith, l.members null, l.real null)) (l.members p ∙ inside);
    distinct = Distinct-erase p l.order l.distinct;
    members = λ r. ground (arith, has-erase r p l.order l.distinct, l.members r);
    apart = λ r lo' hi' out. ground (
      arith,
      has-erase r p l.order l.distinct,
      l.apart r lo' hi',
      prev_mem h head p l.order l.chain (l.members p ∙ inside),
      next_mem h head p l.order l.chain,
      l.members p,
      unlink-next p h r,
      unlink-prev p h r,
    );
  }

  pub link-Linked : linked p ≡ false → Linked n (λ r. linked r || (r == p)) (link p h)
  unfolding has
  link-Linked outside = record {
    order = p ∷ l.order;
    real = λ r lt. ground (arith, l.real r lt);
    chain =
        link-Chain p h lo l.order l.chain (l.members p ∙ outside)
          (l.members head ∙ l.real head (omega arith)) (l.members null ∙ l.real null (omega arith))
          l.distinct;
    distinct = (l.members p ∙ outside, l.distinct);
    members = λ r. ground (arith, l.members r);
    apart = λ r lo' hi' out. ground (
      arith,
      l.apart r lo' hi',
      next_mem h head head l.order l.chain,
      link-next p h lo r,
      link-prev p h lo r,
    );
  }
