-- ===== src/Ds/Ring/Rotate.antt =====
-- kernel/util/ds/list.hpp: a ring seen from another of its nodes, and `add_after_self` of the node
-- before the first one.
use tinylittleos.Common.{
  ℕ, ◌≡◌, ◌⊎◌, inl, inr, refl, sym, ap, subst, ◌∙◌, Bool-cases, true, false, ◌||◌, List, [], ◌∷◌,
  ◌++◌, length, length-append, arith, ◌==◌,
}
use mathlib.Core.List.{append_assoc}
use tinylittleos.Memory.Buddy.Links.{has, Distinct}
use tinylittleos.Ds.Ring.{Heap, add_after_self}
use tinylittleos.Ds.Ring.Laws.{Seg, IsRing, add_after_self-IsRing}

pub has-snoc : (a p : ℕ) (xs : List ℕ) → has a (xs ++ p ∷ []) ≡ (has a xs || (p == a))
unfolding has
has-snoc a p [] = ground arith
has-snoc a p (x ∷ xs) = ground (arith, has-snoc a p xs)

Distinct-snoc : (p : ℕ) (xs : List ℕ) → Distinct (p ∷ xs) → Distinct (xs ++ p ∷ [])
unfolding has
Distinct-snoc p [] d = (refl, tt)
Distinct-snoc p (x ∷ xs) d = (ground (arith, has-snoc x p xs), Distinct-snoc p xs (ground arith))

snoc-Distinct : (p : ℕ) (xs : List ℕ) → Distinct (xs ++ p ∷ []) → Distinct (p ∷ xs)
unfolding has
snoc-Distinct p [] d = (refl, tt)
snoc-Distinct p (x ∷ xs) d =
    let (out, rest) = snoc-Distinct p xs d.1 in
    (ground (arith, has-snoc x p xs), (ground (arith, has-snoc x p xs), rest))

Seg-snoc :
    (h : Heap) (x : ℕ) (xs : List ℕ) (p z : ℕ)
    → Seg h x xs p
    → (h p).l_next ≡ z
    → (h z).l_prev ≡ p
    → Seg h x (xs ++ p ∷ []) z
Seg-snoc h x [] p z s n q = (s.0, s.1, (n, q))
Seg-snoc h x (y ∷ xs) p z s n q = (s.0, s.1, Seg-snoc h y xs p z s.2 n q)

snoc-Seg :
    (h : Heap) (x : ℕ) (xs : List ℕ) (p z : ℕ)
    → Seg h x (xs ++ p ∷ []) z
    → Seg h x xs p × ((h p).l_next ≡ z) × ((h z).l_prev ≡ p)
snoc-Seg h x [] p z s = ((s.0, s.1), s.2.0, s.2.1)
snoc-Seg h x (y ∷ xs) p z s = let (t, n, q) = snoc-Seg h y xs p z s.2 in ((s.0, s.1, t), n, q)

-- The ring from its second node.
pub rotate : (h : Heap) (x y : ℕ) (ys : List ℕ) → IsRing h x (y ∷ ys) → IsRing h y (ys ++ x ∷ [])
rotate h x y ys w = record {
  seg = Seg-snoc h y ys x y w.seg.2 w.seg.0 w.seg.1;
  distinct = Distinct-snoc x (y ∷ ys) w.distinct;
}

-- The ring from its last node.
pub rotate_back :
    (h : Heap) (x p : ℕ) (xs : List ℕ)
    → IsRing h x (xs ++ p ∷ [])
    → IsRing h p (x ∷ xs) × ((h x).l_prev ≡ p)
rotate_back h x p xs w =
    let (s, n, q) = snoc-Seg h x xs p x w.seg in
    (record { seg = (n, q, s); distinct = snoc-Distinct p (x ∷ xs) w.distinct }, q)

pub last-cases : (xs : List ℕ) → (xs ≡ []) ⊎ ((init : List ℕ) × (p : ℕ) × (xs ≡ init ++ p ∷ []))
last-cases [] = inl refl
last-cases (x ∷ xs) = elim (last-cases xs) [
  | inl e ↦ inr ([], x, ap (λ l. x ∷ l) e)
  | inr (init, p, e) ↦ inr (x ∷ init, p, ap (λ l. x ∷ l) e)
]

add_last-snoc :
    (h : Heap) (x t : ℕ) (init : List ℕ) (p : ℕ)
    → IsRing h x (init ++ p ∷ [])
    → has t (x ∷ init ++ p ∷ []) ≡ false
    → IsRing (add_after_self (h x).l_prev t h) x ((init ++ p ∷ []) ++ t ∷ [])
unfolding has
add_last-snoc h x t init p w out =
    let (ring, last) = rotate_back h x p init w in
    let out' : has t (p ∷ x ∷ init) ≡ false = ground (arith, has-snoc t p init) in
    let ring' = add_after_self-IsRing h p t (x ∷ init) ring out' in
    let h' = add_after_self p t h in
    rw last (rotate h' t x (init ++ p ∷ []) (rotate h' p t (x ∷ init) ring'))

-- `add_after_self` of the node before the first one puts a node at the end.
pub add_last-IsRing :
    (h : Heap) (x t : ℕ) (xs : List ℕ)
    → IsRing h x xs
    → has t (x ∷ xs) ≡ false
    → IsRing (add_after_self (h x).l_prev t h) x (xs ++ t ∷ [])
add_last-IsRing h x t xs w out =
    let Ends = λ (l : List ℕ).
      IsRing h x l
      → has t (x ∷ l) ≡ false
      → IsRing (add_after_self (h x).l_prev t h) x (l ++ t ∷ []) in
    elim (last-cases xs) [
      | inl e ↦
          subst Ends (sym e) (λ w' out'. rw w'.seg.1 (add_after_self-IsRing h x t [] w' out')) w out
      | inr (init, p, e) ↦ subst Ends (sym e) (add_last-snoc h x t init p) w out
    ]

-- The same ring, seen from another of its nodes.
pub record FromMember (h : Heap) (x : ℕ) (xs : List ℕ) (t : ℕ) : Type 0 where
  pub others : List ℕ
  pub ring : IsRing h t others
  pub same_length : length others ≡ length xs
  pub same_members : (a : ℕ) → has a (t ∷ others) ≡ has a (x ∷ xs)

split_at :
    (t : ℕ) (xs : List ℕ) → has t xs ≡ true → (as_ : List ℕ) × (bs : List ℕ) × (xs ≡ as_ ++ t ∷ bs)
unfolding has
split_at t [] h = absurd (ground arith)
split_at t (x ∷ xs) h = elim (Bool-cases (x == t)) [
  | inl e ↦ ([], xs, ground arith)
  | inr ne ↦ let (as_, bs, e) = split_at t xs (ground arith) in (x ∷ as_, bs, ap (λ l. x ∷ l) e)
]

turn :
    (h : Heap) (x t : ℕ) (as_ bs : List ℕ)
    → IsRing h x (as_ ++ t ∷ bs)
    → FromMember h x (as_ ++ t ∷ bs) t
unfolding has
turn h x t [] bs w = record {
  others = bs ++ x ∷ [];
  ring = rotate h x t bs w;
  same_length = omega (arith, length-append bs (x ∷ []));
  same_members = λ a. ground (arith, has-snoc a x bs);
}
turn h x t (a ∷ as_) bs w =
    let assoc : (as_ ++ t ∷ bs) ++ x ∷ [] ≡ as_ ++ (t ∷ (bs ++ x ∷ [])) =
      append_assoc as_ (t ∷ bs) (x ∷ []) in
    let r =
      turn h a t as_ (bs ++ x ∷ []) (subst (IsRing h a) assoc (rotate h x a (as_ ++ t ∷ bs) w)) in
    record {
      others = r.others;
      ring = r.ring;
      same_length =
          omega
            (arith, r.same_length, sym (ap length assoc), length-append (as_ ++ t ∷ bs) (x ∷ []));
      same_members = λ b.
          r.same_members b
          ∙ ap (λ l. has b (a ∷ l)) (sym assoc)
          ∙ ground (arith, has-snoc b x (as_ ++ t ∷ bs));
    }

pub from_member :
    (h : Heap) (x : ℕ) (xs : List ℕ) (t : ℕ)
    → IsRing h x xs
    → has t (x ∷ xs) ≡ true
    → FromMember h x xs t
unfolding has
from_member h x xs t w m = elim (Bool-cases (x == t)) [
  | inl e ↦
      let same : x ≡ t = ground arith in
      subst (FromMember h x xs) same
        (record { others = xs; ring = w; same_length = refl; same_members = λ a. refl })
  | inr ne ↦
      let (as_, bs, e) = split_at t xs (ground arith) in
      subst (λ l. IsRing h x l → FromMember h x l t) (sym e) (turn h x t as_ bs) w
]
