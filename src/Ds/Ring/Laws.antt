-- ===== src/Ds/Ring/Laws.antt =====
-- kernel/util/ds/list.hpp: `add_after_self` and `unlink` on rings.
use tinylittleos.Common.{
  ℕ, ◌≡◌, ◌≢◌, refl, ap, ◌∙◌, true, false, ◌||◌, List, [], ◌∷◌, arith, ◌==◌, if◌then◌else◌,
}
use tinylittleos.Memory.Buddy.Links.{has, Distinct}
use tinylittleos.Ds.Ring.{Heap, unlink, add_after_self}

-- From `x` the `l_next` pointers lead through `ys` to `z`, and the `l_prev` pointers back.
abbrev pub Seg : Heap → ℕ → List ℕ → ℕ → Type 0
Seg h x [] z = ((h x).l_next ≡ z) × ((h z).l_prev ≡ x)
Seg h x (y ∷ ys) z = ((h x).l_next ≡ y) × ((h y).l_prev ≡ x) × Seg h y ys z

-- The nodes form a ring, in this order from the first one.
pub record IsRing (h : Heap) (x : ℕ) (xs : List ℕ) : Type 0 where
  pub seg : Seg h x xs x
  pub distinct : Distinct (x ∷ xs)

Seg-frame :
    (h h' : Heap) (x : ℕ) (ys : List ℕ) (z : ℕ)
    → ((r : ℕ) → has r (x ∷ ys) ≡ true → (h' r).l_next ≡ (h r).l_next)
    → ((r : ℕ) → (has r ys || (r == z)) ≡ true → (h' r).l_prev ≡ (h r).l_prev)
    → Seg h x ys z
    → Seg h' x ys z
unfolding has
Seg-frame h h' x [] z next prev s = (next x (ground arith) ∙ s.0, prev z (ground arith) ∙ s.1)
Seg-frame h h' x (y ∷ ys) z next prev s = (
  next x (ground arith) ∙ s.0,
  prev y (ground arith) ∙ s.1,
  Seg-frame h h' y ys z (λ r e. next r (ground arith)) (λ r e. prev r (ground arith)) s.2,
)

module _ (h : Heap) (x t : ℕ) where
  pub add-next :
      (r : ℕ)
      → (add_after_self x t h r).l_next
        ≡ (if r == x then t else if r == t then (h x).l_next else (h r).l_next)
  unfolding add_after_self
  add-next r = ground arith

  add-prev :
      (r : ℕ)
      → t ≢ x
      → (add_after_self x t h r).l_prev
        ≡ (if r == (h x).l_next then t else if r == t then x else (h r).l_prev)
  unfolding add_after_self
  add-prev r ne = ground arith

  -- `add_after_self` puts a node that is not in the ring right behind the first one.
  pub add_after_self-IsRing :
      (xs : List ℕ)
      → IsRing h x xs
      → has t (x ∷ xs) ≡ false
      → IsRing (add_after_self x t h) x (t ∷ xs)
  unfolding has
  add_after_self-IsRing [] w out =
      let ne : t ≢ x = ground arith in
      record {
        seg = (
          ground (arith, add-next x),
          ground (arith, add-prev t ne, w.seg.0),
          (ground (arith, add-next t, w.seg.0), ground (arith, add-prev x ne, w.seg.0)),
        );
        distinct = (ground arith, (refl, tt));
      }
  add_after_self-IsRing (y ∷ ys) w out =
      let ne : t ≢ x = ground arith in
      record {
        seg = (
          ground (arith, add-next x),
          ground (arith, add-prev t ne, w.seg.0),
          (
            ground (arith, add-next t, w.seg.0),
            ground (arith, add-prev y ne, w.seg.0),
            Seg-frame h (add_after_self x t h) y ys x
                (λ r e. ground (
                  arith,
                  add-next r,
                  w.distinct.0,
                  e,
                  ap (λ q. has q ys) {x = r} {y = x},
                  ap (λ q. has q ys) {x = r} {y = t},
                ))
                (λ r e. ground (
                  arith,
                  add-prev r ne,
                  w.seg.0,
                  w.distinct.0,
                  w.distinct.1.0,
                  e,
                  ap (λ q. has q ys) {x = r} {y = y},
                  ap (λ q. has q ys) {x = r} {y = t},
                ))
                w.seg.2,
          ),
        );
        distinct = (ground (arith, w.distinct.0), (ground arith, w.distinct.1));
      }

module _ (h : Heap) (x y : ℕ) where
  pub unlink-next :
      (r : ℕ)
      → y ≢ (h y).l_prev
      → (unlink y h r).l_next
        ≡ (if r == y then y else if r == (h y).l_prev then (h y).l_next else (h r).l_next)
  unfolding unlink
  unlink-next r ne = ground arith

  unlink-prev :
      (r : ℕ)
      → y ≢ (h y).l_prev
      → (unlink y h r).l_prev
        ≡ (if r == y then y else if r == (h y).l_next then (h y).l_prev else (h r).l_prev)
  unfolding unlink
  unlink-prev r ne = ground arith

  alone : y ≢ (h y).l_prev → IsRing (unlink y h) y []
  unfolding has
  alone ne = record {
    seg = (ground (arith, unlink-next y ne), ground (arith, unlink-prev y ne));
    distinct = (refl, tt);
  }

  -- `unlink` takes the node behind the first out of a ring, and makes it a ring of its own.
  pub unlink-IsRing :
      (zs : List ℕ) → IsRing h x (y ∷ zs) → IsRing (unlink y h) x zs × IsRing (unlink y h) y []
  unfolding has
  unlink-IsRing [] w =
      let ne : y ≢ (h y).l_prev = ground (arith, w.seg.1, w.distinct.0) in
      (
        record {
          seg = (
            ground (arith, unlink-next x ne, w.seg.1, w.seg.2.0, w.distinct.0),
            ground (arith, unlink-prev x ne, w.seg.1, w.seg.2.0, w.distinct.0),
          );
          distinct = (refl, tt);
        },
        alone ne,
      )
  unlink-IsRing (z ∷ zs) w =
      let ne : y ≢ (h y).l_prev = ground (arith, w.seg.1, w.distinct.0) in
      (
        record {
          seg = (
            ground (arith, unlink-next x ne, w.seg.1, w.seg.2.0, w.distinct.0),
            ground (arith, unlink-prev z ne, w.seg.1, w.seg.2.0, w.distinct.1.0),
            Seg-frame h (unlink y h) z zs x
                (λ r e. ground (
                  arith,
                  unlink-next r ne,
                  w.seg.1,
                  w.distinct.0,
                  w.distinct.1.0,
                  e,
                  ap (λ q. has q zs) {x = r} {y = x},
                  ap (λ q. has q zs) {x = r} {y = y},
                ))
                (λ r e. ground (
                  arith,
                  unlink-prev r ne,
                  w.seg.2.0,
                  w.distinct.0,
                  w.distinct.1.0,
                  w.distinct.1.1.0,
                  e,
                  ap (λ q. has q zs) {x = r} {y = z},
                  ap (λ q. has q zs) {x = r} {y = y},
                ))
                w.seg.2.2,
          );
          distinct = (ground (arith, w.distinct.0), w.distinct.1.1);
        },
        alone ne,
      )
