-- ===== src/Ds/Bitset/Prefix.antt =====
-- kernel/util/ds/bitset.hpp: the operations on all the numbers below a bound.
use tinylittleos.Common.{
  ℕ, ◌+◌, ◌-◌, ◌*◌, ◌/◌, ◌%◌, ◌^◌, ◌<◌, ◌≤◌, ◌≡◌, refl, sym, ap, ◌∙◌, arith, ◌==◌, if◌then◌else◌,
  length, get_or, set, inl, inr, ◌↔◌, Bool-cases, ltb, Bool, true, false, length-set, get_or-set,
  get_or_above, ==_iff, bit_and,
}
use tinylittleos.Common.Bits.{bit_at, bit_at-zero, bit_at-ones}
use tinylittleos.Common.Run.{◌>>=◌, Returns, read-ok, write-ok}
use tinylittleos.Ds.Bitset.{
  Bitset, all_ones, all_equal, set_all_until, clear_all, rest_equals, all_set_until,
  all_clear_until, all_clear, bit_of, arr_index,
}
use tinylittleos.Ds.Bitset.Laws.{contains, IsWords, bit_of_lem, bit_of-lt}
use tinylittleos.Ds.Bitset.Loops.{
  fill-Filled, Agrees, all_equal-Agrees, word_iff, mask_iff, contains_at,
}

-- Both tests: all the words before that of `index` are `full`, and the rest is `v`.
module _ (c full : ℕ) (n : ℕ) (s : Bitset) (index : ℕ) (bit : c < 2) (full_fits : full < 2 ^ 32)
    (full_digits : (i : ℕ) → i < 32 → bit_at full i ≡ c) (w : IsWords n s)
    (h : index < n * 32) where
  until_iff :
      (v : ℕ)
      → v < 2 ^ 32
      → ((i : ℕ) → bit_at v i ≡ (if ltb i (index % 2 ^ 5) then c else 0))
      → (((k : ℕ) → 0 ≤ k → k < 0 + index / 2 ^ 5 → get_or s.m_set k 0 ≡ full)
          × (bit_and (get_or s.m_set (index / 2 ^ 5) 0) (2 ^ (index % 2 ^ 5) - 1) ≡ v))
        ↔ ((j : ℕ) → j < index → contains s j ≡ c)
  unfolding contains
  until_iff v v_fits d = (
    λ both j lt. elim (Bool-cases (ltb (j / 2 ^ 5) (index / 2 ^ 5))) [
      | inl before ↦
          (word_iff c full (get_or s.m_set (j / 2 ^ 5) 0) full_fits (w.fits _) full_digits).0
            (both.0 _ (omega arith) (ground arith)) (j % 2 ^ 5) (omega arith)
      | inr same ↦
          contains_at s j (index / 2 ^ 5) (j % 2 ^ 5) (ground arith) refl
          ∙ (mask_iff c (index % 2 ^ 5) v _ bit (omega arith) v_fits (w.fits _) d).0 both.1
              (j % 2 ^ 5) (ground arith)
    ],
    λ all. (
      λ k _ lt. (word_iff c full _ full_fits (w.fits k) full_digits).1 (λ i i_lt.
          sym (contains_at s (k * 32 + i) k i (omega arith) (omega arith))
          ∙ all (k * 32 + i) (omega arith)),
      (mask_iff c (index % 2 ^ 5) v _ bit (omega arith) v_fits (w.fits _) d).1 (λ i i_lt.
          sym (contains_at s (index / 2 ^ 5 * 32 + i) (index / 2 ^ 5) i (omega arith) (omega arith))
          ∙ all (index / 2 ^ 5 * 32 + i) (omega arith)),
    ),
  )

  until-Returns :
      (v : ℕ)
      → v < 2 ^ 32
      → ((i : ℕ) → bit_at v i ≡ (if ltb i (index % 2 ^ 5) then c else 0))
      → Returns
          (do before ← all_equal full (arr_index index) 0 s.m_set; rest_equals v s index before)
          (λ b. (b ≡ true) ↔ ((j : ℕ) → j < index → contains s j ≡ c))
  unfolding rest_equals
  until-Returns v v_fits d =
      let (b, run, a) = all_equal-Agrees full (index / 2 ^ 5) 0 s.m_set (omega (arith, w.size)) in
      rw run (second b a)
    where
      in_range : index / 2 ^ 5 < length s.m_set
      in_range = omega (arith, w.size)

      masked : ℕ
      masked = bit_and (get_or s.m_set (index / 2 ^ 5) 0) (2 ^ (index % 2 ^ 5) - 1)

      second :
          (b : Bool)
          → Agrees full (index / 2 ^ 5) 0 s.m_set b
          → Returns
              (rest_equals v s index b)
              (λ b'. (b' ≡ true) ↔ ((j : ℕ) → j < index → contains s j ≡ c))
      second false a = (false, refl, (λ e. cc, λ all. a.1 ((until_iff v v_fits d).1 all).0))
      second true a = (
        (masked == v),
        rw (read-ok s.m_set (index / 2 ^ 5) 0 in_range, bit_of_lem index),
        (
          λ e. (until_iff v v_fits d).0 (a.0 refl, (==_iff masked v).0 e),
          λ all. (==_iff masked v).1 ((until_iff v v_fits d).1 all).1,
        ),
      )

module _ (n : ℕ) (s : Bitset) (index : ℕ) (w : IsWords n s) (h : index < n * 32) where
  rest_mask-lt : bit_of index - 1 < 2 ^ 32
  rest_mask-lt = omega (arith, bit_of-lt index)

  -- `all_set_until` returns whether every number below the bound is in the set.
  pub all_set_until_iff :
      Returns (all_set_until s index) (λ b. (b ≡ true) ↔ ((j : ℕ) → j < index → contains s j ≡ 1))
  unfolding all_set_until
  all_set_until_iff =
      until-Returns 1 all_ones n s index (omega arith) (omega arith)
        (λ i lt. bit_at-ones 32 i ∙ ground arith) w h (bit_of index - 1) rest_mask-lt
        (λ i. ap (λ m. bit_at (m - 1) i) (bit_of_lem index) ∙ bit_at-ones (index % 2 ^ 5) i)

  -- `all_clear_until` returns whether no number below the bound is in the set.
  pub all_clear_until_iff :
      Returns (all_clear_until s index) (λ b. (b ≡ true) ↔ ((j : ℕ) → j < index → contains s j ≡ 0))
  unfolding all_clear_until
  all_clear_until_iff =
      until-Returns 0 0 n s index (omega arith) (omega arith) (λ i lt. bit_at-zero i) w h 0
        (omega arith) (λ i. ground (arith, bit_at-zero i))

  -- `set_all_until` puts in every number below the bound, clears the rest of the bound's word and
  -- keeps the words behind it.
  pub set_all_until_lem : Returns (set_all_until s index) λ t.
      IsWords n t
      × ((j : ℕ)
          → contains t j
            ≡ (if ltb j index then 1 else if j / 2 ^ 5 == index / 2 ^ 5 then 0 else contains s j))
  unfolding set_all_until contains
  set_all_until_lem =
      let (filled, run, f) =
        fill-Filled all_ones (index / 2 ^ 5) 0 s.m_set (omega (arith, w.size)) in
      let in_range : index / 2 ^ 5 < length filled = omega (arith, f.size, w.size) in
      (
        record s { m_set = set filled (index / 2 ^ 5) (bit_of index - 1) },
        rw (run, write-ok filled (index / 2 ^ 5) (bit_of index - 1) in_range),
        (
          record {
            size = length-set filled _ _ ∙ f.size ∙ w.size;
            fits = λ i. ground (
              arith,
              get_or-set filled (index / 2 ^ 5) i (bit_of index - 1) 0 in_range,
              f.value i,
              w.fits i,
              rest_mask-lt,
            );
          },
          λ j. ground (
            arith,
            get_or-set filled (index / 2 ^ 5) (j / 2 ^ 5) (bit_of index - 1) 0 in_range,
            f.value (j / 2 ^ 5),
            ap (λ m. bit_at (m - 1) (j % 2 ^ 5)) (bit_of_lem index),
            bit_at-ones (index % 2 ^ 5) (j % 2 ^ 5),
            bit_at-ones 32 (j % 2 ^ 5),
          ),
        ),
      )

module _ (n : ℕ) (s : Bitset) (w : IsWords n s) where
  pub clear_all_lem : Returns (clear_all s) λ t. IsWords n t × ((j : ℕ) → contains t j ≡ 0)
  unfolding clear_all contains
  clear_all_lem =
      let (filled, run, f) = fill-Filled 0 (length s.m_set) 0 s.m_set (omega arith) in
      (
        record s { m_set = filled },
        rw run,
        (
          record { size = f.size ∙ w.size; fits = λ i. ground (arith, f.value i, w.fits i) },
          λ j. ground (
            arith,
            f.value (j / 2 ^ 5),
            bit_at-zero (j % 2 ^ 5),
            get_or_above s.m_set (j / 2 ^ 5) 0,
          ),
        ),
      )

  pub all_clear_iff : Returns (all_clear s) (λ b. (b ≡ true) ↔ ((j : ℕ) → contains s j ≡ 0))
  unfolding all_clear contains
  all_clear_iff =
      let (b, run, a) = all_equal-Agrees 0 (length s.m_set) 0 s.m_set (omega arith) in
      (
        b,
        run,
        (
          λ e j. ground (
            arith,
            a.0 e (j / 2 ^ 5),
            bit_at-zero (j % 2 ^ 5),
            get_or_above s.m_set (j / 2 ^ 5) 0,
          ),
          λ all. a.1 λ k _ lt.
              (word_iff 0 0 _ (omega arith) (w.fits k) (λ i _. bit_at-zero i)).1 λ i i_lt.
                sym (contains_at s (k * 32 + i) k i (omega arith) (omega arith)) ∙ all (k * 32 + i),
        ),
      )
