-- ===== src/Ds/Bitset/Find.antt =====
-- kernel/util/ds/bitset.hpp: `find_bit`.
use tinylittleos.Common.{
  ℕ, ◌+◌, ◌-◌, ◌*◌, ◌/◌, ◌%◌, ◌^◌, ◌<◌, ◌≡◌, refl, ap, ◌∙◌, arith, ◌==◌, if◌then◌else◌, length,
  get_or, ltb, get_or-cons, subst, List, [], ◌∷◌, inl, inr, ◌⊎◌, Bool-cases,
}
use tinylittleos.Common.Bits.{bit_at, bit_at-zero, ctz, ctz-IsLowest, IsLowest}
use tinylittleos.Common.Words.{digit}
use tinylittleos.Ds.Bitset.{Bitset, all_ones, find_from, find_bit}
use tinylittleos.Ds.Bitset.Laws.{contains, IsWords}

-- `r` is the smallest member; or the set is empty and `r` is the `-1` of the code.
abbrev pub Finds : (ℕ → ℕ) → ℕ → ℕ → Type 0
Finds member bound r =
    ((r < bound) × (member r ≡ 1) × ((j : ℕ) → j < r → member j ≡ 0))
    ⊎ ((r ≡ all_ones) × ((j : ℕ) → member j ≡ 0))

digit-nil : (j : ℕ) → digit [] j ≡ 0
unfolding digit get_or
digit-nil j = bit_at-zero (j % 2 ^ 5)

digit-cons :
    (w : ℕ) (ws : List ℕ) (j : ℕ)
    → digit (w ∷ ws) j ≡ (if ltb j 32 then bit_at w j else digit ws (j - 32))
unfolding digit
digit-cons w ws j = ground (arith, get_or-cons w ws (j / 2 ^ 5) 0)

abbrev Found : ℕ → List ℕ → ℕ → Type 0
Found i words r =
    ((j : ℕ) × (r ≡ i * 32 + j)
      × (j < length words * 32)
      × (digit words j ≡ 1)
      × ((k : ℕ) → k < j → digit words k ≡ 0))
    ⊎ ((r ≡ all_ones) × ((k : ℕ) → digit words k ≡ 0))

-- A word of zeros in front moves what is found behind it by 32.
Found-cons_zero : (i r : ℕ) (ws : List ℕ) → Found (i + 1) ws r → Found i (0 ∷ ws) r
Found-cons_zero i r ws (inl (j, e, lt, one, before)) = inl (
  j + 32,
  omega arith,
  omega arith,
  ground (arith, digit-cons 0 ws (j + 32)),
  λ k lt'. ground (arith, digit-cons 0 ws k, before (k - 32), bit_at-zero k),
)
Found-cons_zero i r ws (inr (e, none_set)) =
    inr (e, λ k. ground (arith, digit-cons 0 ws k, none_set (k - 32), bit_at-zero k))

Found-cons : (i w c : ℕ) (ws : List ℕ) → IsLowest 32 w c → Found i (w ∷ ws) (i * 32 + c)
Found-cons i w c ws low = inl (
  c,
  refl,
  omega (arith, low.within),
  ground (arith, digit-cons w ws c, low.within, low.one),
  λ k lt. ground (arith, digit-cons w ws k, low.within, low.below k),
)

find_from-Found :
    (i : ℕ) (words : List ℕ)
    → ((k : ℕ) → get_or words k 0 < 2 ^ 32)
    → Found i words (find_from i words)
unfolding find_from
find_from-Found i [] fits = inr (refl, digit-nil)
find_from-Found i (w ∷ ws) fits = elim (Bool-cases (w == 0)) [
  | inl zeros ↦
      rw (zeros, find_from)
        (subst (λ v. Found i (v ∷ ws) (find_from (i + 1) ws)) (ground arith)
          (Found-cons_zero i _ ws (
            find_from-Found (i + 1) ws
              (λ k. ground (arith, fits (k + 1), get_or-cons w ws (k + 1) 0)))))
  | inr ne ↦
      rw (ne, find_from)
        (Found-cons i w (ctz 32 w) ws
          (ctz-IsLowest 32 w (ground arith) (ground (arith, fits 0, get_or-cons w ws 0 0))))
]

-- The loop from the first word on.
pub find_from-Finds :
    (words : List ℕ)
    → ((k : ℕ) → get_or words k 0 < 2 ^ 32)
    → Finds (digit words) (length words * 32) (find_from 0 words)
find_from-Finds words fits = finds (find_from-Found 0 words fits)
  where
    finds :
        Found 0 words (find_from 0 words)
        → Finds (digit words) (length words * 32) (find_from 0 words)
    finds (inl (j, e, lt, one, before)) =
        inl (omega arith, ap (digit words) e' ∙ one, λ k lt'. before k (omega arith))
      where
        e' : find_from 0 words ≡ j
        e' = omega arith
    finds (inr empty) = inr empty

-- `find_bit` returns the smallest member of the set, or -1 if the set is empty.
pub find_bit-Finds : (n : ℕ) (s : Bitset) → IsWords n s → Finds (contains s) (n * 32) (find_bit s)
unfolding find_bit contains
find_bit-Finds n s w =
    subst (λ k. Finds (digit s.m_set) (k * 32) (find_from 0 s.m_set)) w.size
      (find_from-Finds s.m_set w.fits)
