-- ===== src/Ds/Ring/Frame.antt =====
-- kernel/util/ds/list.hpp: the nodes that `add_after_self` and `unlink` leave alone.
use tinylittleos.Common.{
  ℕ, suc, ◌≡◌, inl, inr, sym, ap, subst, true, false, List, [], ◌∷◌, ◌++◌, length, arith,
}
use tinylittleos.Memory.Buddy.Links.{has}
use tinylittleos.Ds.Ring.{Heap, lonely, unlink, add_after_self}
use tinylittleos.Ds.Ring.Laws.{IsRing, add-next, unlink-next}
use tinylittleos.Ds.Ring.Rotate.{has-snoc, rotate_back, last-cases, from_member}

-- The node before the first one is in the ring.
pub has-prev : (h : Heap) (x : ℕ) (xs : List ℕ) → IsRing h x xs → has (h x).l_prev (x ∷ xs) ≡ true
unfolding has
has-prev h x xs w = elim (last-cases xs) [
  | inl e ↦
      subst (λ l. IsRing h x l → has (h x).l_prev (x ∷ l) ≡ true) (sym e)
        (λ v. ground (arith, v.seg.1)) w
  | inr (init, p, e) ↦
      subst (λ l. IsRing h x l → has (h x).l_prev (x ∷ l) ≡ true) (sym e)
        (λ v. ground (arith, (rotate_back h x p init v).1, has-snoc p p init)) w
]

-- Nodes outside the ring keep their successors.
pub add_last-next :
    (h : Heap) (x t : ℕ) (xs : List ℕ) (r : ℕ)
    → IsRing h x xs
    → has r (x ∷ xs ++ t ∷ []) ≡ false
    → (add_after_self (h x).l_prev t h r).l_next ≡ (h r).l_next
unfolding has
add_last-next h x t xs r w out = ground (
  arith,
  add-next h (h x).l_prev t r,
  has-snoc r t xs,
  has-prev h x xs w,
  ap (λ a. has a xs) {x = r} {y = (h x).l_prev},
)

pub unlink-next_outside :
    (h : Heap) (x y : ℕ) (zs : List ℕ) (r : ℕ)
    → IsRing h x (y ∷ zs)
    → has r (x ∷ y ∷ zs) ≡ false
    → (unlink y h r).l_next ≡ (h r).l_next
unfolding has
unlink-next_outside h x y zs r w out = ground (arith, unlink-next h x y r, w.seg.1, w.distinct.0)

others_cases :
    (h : Heap) (t : ℕ) (others : List ℕ) (n : ℕ)
    → IsRing h t others
    → length others ≡ suc n
    → lonely t h ≡ false
unfolding has lonely
others_cases h t [] n w e = absurd (omega (arith, e))
others_cases h t (y ∷ ys) n w e = ground (arith, w.seg.0, w.distinct.0)

-- A node of a ring of several is not lonely.
pub not-lonely :
    (h : Heap) (x : ℕ) (xs : List ℕ) (t : ℕ) → IsRing h x xs → has t xs ≡ true → lonely t h ≡ false
unfolding has lonely
not-lonely h x [] t w m = ground arith
not-lonely h x (y ∷ ys) t w m =
    let r = from_member h x (y ∷ ys) t w (ground arith) in
    others_cases h t r.others (length ys) r.ring r.same_length
