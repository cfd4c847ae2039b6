-- ===== src/Util/Cstr/Scan.antt =====
-- kernel/util/cstr.cpp: `strlen` and `memcmp`.
use tinylittleos.Common.{
  ℕ, zero, suc, ◌+◌, ◌<◌, ◌≤◌, ◌≡◌, ◌≢◌, ap, ◌∙◌, true, false, ◌==◌, ltb, arith, Bool-cases, inl,
  inr,
}
use tinylittleos.Common.Run.{ok}
use tinylittleos.Util.Cstr.{Memory, strlen, Compared, less, same, greater, compare_from, memcmp}

-- `strlen` returns the offset of the first zero byte, given fuel for the bytes up to it.
strlen-from :
    (fuel s len n : ℕ) (m : Memory)
    → n < fuel
    → ((i : ℕ) → len ≤ i → i < len + n → m (s + i) ≢ 0)
    → m (s + (len + n)) ≡ 0
    → strlen fuel s len m ≡ ok (len + n)
unfolding strlen
strlen-from zero s len n m h some end = absurd (omega arith)
strlen-from (suc fuel) s len zero m h some end =
    let stop : (m (s + len) == 0) ≡ true = ground (arith, ap m {x = s + len} {y = s + (len + 0)}) in
    rw (stop, strlen) (ap ok (omega arith))
strlen-from (suc fuel) s len (suc n) m h some end =
    let go : (m (s + len) == 0) ≡ false = ground (arith, some len) in
    rw (go, strlen)
      (strlen-from fuel s (len + 1) n m (omega arith)
          (λ i lo hi. some i (omega arith) (omega arith)) (ap m (omega arith) ∙ end)
        ∙ ap ok (omega arith))

-- `strlen` of a string with its first zero byte at offset `n` returns `n`.
pub strlen_lem :
    (fuel s n : ℕ) (m : Memory)
    → n < fuel
    → ((i : ℕ) → i < n → m (s + i) ≢ 0)
    → m (s + n) ≡ 0
    → strlen fuel s 0 m ≡ ok n
strlen_lem fuel s n m h some end =
    strlen-from fuel s 0 n m h (λ i lo hi. some i (omega arith)) (ap m (omega arith) ∙ end)
    ∙ ap ok (omega arith)

-- The bytes at `a` and `b` are the same from offset `i` up to offset `k`.
abbrev pub Agree : (a b i k : ℕ) → Memory → Type 0
Agree a b i k m = (j : ℕ) → i ≤ j → j < k → m (a + j) ≡ m (b + j)

-- What a result of the comparison says: that of the first bytes that differ, if any do.
abbrev pub Describes : (a b i size : ℕ) → Memory → Compared → Type 0
Describes a b i size m less = (k : ℕ) × (k < size) × Agree a b i k m × (m (a + k) < m (b + k))
Describes a b i size m same = Agree a b i size m
Describes a b i size m greater = (k : ℕ) × (k < size) × Agree a b i k m × (m (b + k) < m (a + k))

module _ (a b size : ℕ) (m : Memory) where
  Agree-cons : (i k : ℕ) → m (a + i) ≡ m (b + i) → Agree a b (i + 1) k m → Agree a b i k m
  Agree-cons i k e after j lo hi =
      ground (
        arith,
        after j,
        e,
        ap (λ x. m (a + x)) {x = j} {y = i},
        ap (λ x. m (b + x)) {x = j} {y = i},
      )

  -- An equal byte in front.
  Describes-cons :
      (i : ℕ) (r : Compared)
      → m (a + i) ≡ m (b + i)
      → Describes a b (i + 1) size m r
      → Describes a b i size m r
  Describes-cons i less e (k, lt, after, at) = (k, lt, Agree-cons i k e after, at)
  Describes-cons i same e all = Agree-cons i size e all
  Describes-cons i greater e (k, lt, after, at) = (k, lt, Agree-cons i k e after, at)

  compare_from-Describes :
      (left i : ℕ) → i + left ≡ size → Describes a b i size m (compare_from left i a b m)
  unfolding compare_from
  compare_from-Describes zero i e = λ j lo hi. absurd (omega arith)
  compare_from-Describes (suc left) i e = elim (Bool-cases (ltb (m (a + i)) (m (b + i)))) [
    | inl below ↦
        rw (below, compare_from) (i, omega arith, λ j lo hi. absurd (omega arith), ground arith)
    | inr not_below ↦ elim (Bool-cases (ltb (m (b + i)) (m (a + i)))) [
      | inl above ↦
          rw (not_below, above, compare_from)
            (i, omega arith, λ j lo hi. absurd (omega arith), ground arith)
      | inr not_above ↦
          rw (not_below, not_above, compare_from)
            (Describes-cons i _ (ground arith) (compare_from-Describes left (i + 1) (omega arith)))
    ]
  ]

  -- `memcmp` returns how the first two bytes that differ compare, and 0 if there are none.
  pub memcmp-Describes : Describes a b 0 size m (memcmp a b size m)
  unfolding memcmp
  memcmp-Describes = compare_from-Describes size 0 (omega arith)
