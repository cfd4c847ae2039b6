-- ===== src/Ds/Ring/Walk.antt =====
-- kernel/util/ds/list.hpp: the iteration over a ring, from any of its nodes.
use tinylittleos.Common.{
  ℕ, zero, suc, ◌+◌, ◌<◌, ◌≡◌, ◌↔◌, refl, ap, true, false, List, [], ◌∷◌, arith, ◌==◌, ==-refl,
  length,
}
use tinylittleos.Common.Run.{ok, ◌>>=◌}
use tinylittleos.Memory.Buddy.Links.{has}
use tinylittleos.Ds.Ring.{Heap, lonely, iterate}
use tinylittleos.Ds.Ring.Laws.{Seg, IsRing}

iterate-Seg :
    (fuel start : ℕ) (h : Heap) (y : ℕ) (ys : List ℕ)
    → length ys + 1 < fuel
    → has start (y ∷ ys) ≡ false
    → Seg h y ys start
    → iterate fuel start false y h ≡ ok (y ∷ ys)
unfolding iterate has
iterate-Seg zero start h y ys lt out s = absurd (omega arith)
iterate-Seg (suc zero) start h y ys lt out s = absurd (omega arith)
iterate-Seg (suc (suc fuel)) start h y [] lt out s =
    let other : (y == start) ≡ false = ground arith in rw (other, s.0, ==-refl start, iterate)
iterate-Seg (suc (suc fuel)) start h y (z ∷ zs) lt out s =
    let other : (y == start) ≡ false = ground arith in
    let rest = iterate-Seg (suc fuel) start h z zs (omega arith) (ground arith) s.2 in
    rw (other, s.0) (ap (λ r. do nodes ← r; ok (y ∷ nodes)) rest)

-- The iteration from a node visits every node of its ring once, in order, given fuel for them.
pub iterate-IsRing :
    (fuel : ℕ) (h : Heap) (x : ℕ) (xs : List ℕ)
    → length xs + 2 < fuel
    → IsRing h x xs
    → iterate fuel x true x h ≡ ok (x ∷ xs)
unfolding iterate has
iterate-IsRing zero h x xs lt w = absurd (omega arith)
iterate-IsRing (suc zero) h x xs lt w = absurd (omega arith)
iterate-IsRing (suc (suc fuel)) h x [] lt w = rw (==-refl x, w.seg.0, ==-refl x, iterate)
iterate-IsRing (suc (suc fuel)) h x (y ∷ ys) lt w =
    let rest = iterate-Seg (suc fuel) x h y ys (omega arith) w.distinct.0 w.seg.2 in
    rw (==-refl x, w.seg.0) (ap (λ r. do nodes ← r; ok (x ∷ nodes)) rest)

-- `lonely` returns true exactly if the node is its ring.
pub lonely_iff :
    (h : Heap) (x : ℕ) (xs : List ℕ) → IsRing h x xs → (lonely x h ≡ true) ↔ (length xs ≡ 0)
unfolding lonely has
lonely_iff h x [] w = (λ e. refl, λ e. ground (arith, w.seg.0))
lonely_iff h x (y ∷ ys) w =
    (λ e. ground (arith, w.seg.0, w.distinct.0, e), λ e. absurd (omega (arith, e)))
