-- ===== src/Ds/Bitset/Laws.antt =====
-- kernel/util/ds/bitset.hpp, one bit at a time: `set_bit`, `clear_bit` and `has_bit`.
use tinylittleos.Common.{
  ℕ, ◌*◌, ◌/◌, ◌%◌, ◌^◌, ◌<◌, bit_and, bit_or, ◌≡◌, ap, ◌∙◌, arith, ◌==◌, if◌then◌else◌, length,
  get_or, set, length-set, get_or-set, not, length-replicate, get_or-replicate,
}
use tinylittleos.Common.Bits.{
  bit_at, bit_at-lt, bit_at-and, bit_at-or, bit_at-pow, bit_at-not, bit_at-zero, bit_and-le,
  bit_or-lt, pow-lt, bit_and-test, bit_and_mask, not_w,
}
use tinylittleos.Common.Words.{digit}
use tinylittleos.Common.Run.{ok, Returns, read-ok, write-ok}
use tinylittleos.Ds.Bitset.{
  Bitset, empty, int_count, bit_of, arr_index, set_bit, clear_bit, has_bit,
}

-- Whether `j` is in the set, 1 or 0.
unfoldable pub contains : Bitset → ℕ → ℕ
unfolding digit
contains s j = digit s.m_set j

-- The array has `n` words of 32 bits.
pub record IsWords (n : ℕ) (s : Bitset) : Type 0 where
  pub size : length s.m_set ≡ n
  pub fits : (i : ℕ) → get_or s.m_set i 0 < 2 ^ 32

-- `t` is `s` but for `index`, which is in `t` exactly if `v` is 1.
pub record Updates (n : ℕ) (s : Bitset) (index v : ℕ) (t : Bitset) : Type 0 where
  pub words : IsWords n t
  pub bits : (j : ℕ) → contains t j ≡ (if j == index then v else contains s j)

pub bit_of_lem : (index : ℕ) → bit_of index ≡ 2 ^ (index % 2 ^ 5)
bit_of_lem index = ap (λ k. 2 ^ k) (bit_and_mask 5 index)

pub bit_of-lt : (index : ℕ) → bit_of index < 2 ^ 32
bit_of-lt index = rw (bit_of_lem index) (pow-lt 32 (index % 2 ^ 5) (omega arith))

-- One word of `s` is replaced, by one that differs at most in the digit of `index`.
store : (s : Bitset) (index word : ℕ) → Bitset
store s index word = record s { m_set = set s.m_set (arr_index index) word }

store-Updates :
    (n : ℕ) (s : Bitset) (index word v : ℕ)
    → IsWords n s
    → index < n * 32
    → word < 2 ^ 32
    → ((i : ℕ)
        → i < 32
        → bit_at word i
          ≡ (if i == index % 2 ^ 5 then v else bit_at (get_or s.m_set (arr_index index) 0) i))
    → Updates n s index v (store s index word)
unfolding store contains
store-Updates n s index word v w h lt e = record {
  words = record {
    size = length-set s.m_set (arr_index index) word ∙ w.size;
    fits = λ i. ground (arith, get_or-set s.m_set (arr_index index) i word 0, w.fits i, w.size);
  };
  bits = λ j.
      ground
        (arith, get_or-set s.m_set (arr_index index) (j / 2 ^ 5) word 0, w.size, e (j % 2 ^ 5));
}

module _ (n : ℕ) (s : Bitset) (index : ℕ) (w : IsWords n s) (h : index < n * 32) where
  word_at : ℕ
  word_at = get_or s.m_set (arr_index index) 0

  in_range : arr_index index < length s.m_set
  in_range = omega (arith, w.size)

  -- `set_bit` puts the number in, and changes no other member.
  pub set_bit-Updates : Returns (set_bit s index) (Updates n s index 1)
  unfolding set_bit store word_at
  set_bit-Updates = (
    store s index (bit_or word_at (bit_of index)),
    rw (
      read-ok s.m_set (arr_index index) 0 in_range,
      write-ok s.m_set (arr_index index) (bit_or word_at (bit_of index)) in_range,
    ),
    store-Updates n s index _ 1 w h (bit_or-lt 32 _ _ (w.fits _) (bit_of-lt index)) (λ i lt.
        ground (
          arith,
          bit_at-or word_at (bit_of index) i,
          ap (λ b. bit_at b i) (bit_of_lem index),
          bit_at-pow (index % 2 ^ 5) i,
          bit_at-lt word_at i,
        )),
  )

  -- `clear_bit` takes the number out, and changes no other member.
  pub clear_bit-Updates : Returns (clear_bit s index) (Updates n s index 0)
  unfolding clear_bit store word_at
  clear_bit-Updates = (
    store s index (bit_and word_at (not_w 32 (bit_of index))),
    rw (
      read-ok s.m_set (arr_index index) 0 in_range,
      write-ok s.m_set (arr_index index) (bit_and word_at (not_w 32 (bit_of index))) in_range,
    ),
    store-Updates n s index _ 0 w h
        (omega (
          arith,
          bit_and-le 32 word_at (not_w 32 (bit_of index)) (w.fits _),
          w.fits (arr_index index),
        ))
        (λ i lt. ground (
          arith,
          bit_at-and word_at (not_w 32 (bit_of index)) i,
          bit_at-not 32 (bit_of index) i (bit_of-lt index) lt,
          ap (λ b. bit_at b i) (bit_of_lem index),
          bit_at-pow (index % 2 ^ 5) i,
          bit_at-lt word_at i,
        )),
  )

  pub has_bit_lem : has_bit s index ≡ ok (contains s index == 1)
  unfolding has_bit contains word_at
  has_bit_lem = rw (read-ok s.m_set (arr_index index) 0 in_range) (
      ap ok (
        ap (λ b. not (bit_and (get_or s.m_set (arr_index index) 0) b == 0)) (bit_of_lem index)
        ∙ bit_and-test word_at (index % 2 ^ 5)))

pub empty-IsWords : (bits : ℕ) → IsWords (int_count bits) (empty bits)
unfolding empty
empty-IsWords bits = record {
  size = length-replicate _ 0;
  fits = λ i. rw (get_or-replicate {A = ℕ} (int_count bits) i 0) (omega arith);
}

pub contains-empty : (bits j : ℕ) → contains (empty bits) j ≡ 0
unfolding empty contains
contains-empty bits j =
    rw (get_or-replicate {A = ℕ} (int_count bits) (j / 2 ^ 5) 0) (bit_at-zero (j % 2 ^ 5))
