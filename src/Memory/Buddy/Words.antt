-- ===== src/Memory/Buddy/Words.antt =====
-- kernel/memory/page_allocator.cpp: what `mark_alloc_kN` and `mark_free_kN` do to the bitmap.
use tinylittleos.Common.{
  ℕ, zero, suc, ◌/◌, ◌%◌, ◌^◌, ◌<◌, ◌≤◌, bit_and, bit_or, ◌≡◌, refl, sym, ap, ◌∙◌, Bool, true, List,
  [], ◌∷◌, ◌↔◌, arith, ◌==◌, if◌then◌else◌, length, get_or, set, length-set, get_or-set,
  get_or_above, Bool-cases, inl, inr, ltb, not,
}
use tinylittleos.Common.Bits.{
  bit_at, bit_at-lt, bit_at-zero, bit_at-and, bit_at-or, bit_at-not, bit_at-pow, bit_and-le,
  bit_or-lt, bit_and-test, pow-lt, not_w, bit_at_above,
}
use native.Mathlib.Nat.{mod-eq_of_lt}
use tinylittleos.Common.Words.{digit, digit-set, digit-zero_iff, digit_at, digit-lt}
use tinylittleos.Common.Run.{Run, ok, read, ◌>>=◌, Returns, read-ok, write-ok}
use tinylittleos.Ds.Bitset.Laws.{bit_of_lem}
use tinylittleos.Memory.Buddy.{
  Size, k4, k8, k16, k32, word_index, bit_mask, all_zero, clear_digit, set_digit,
}

-- How many blocks of the size a buddy has, and the width of the words of its bitmap.
abbrev pub width : Size → ℕ
width k4 = 128
width k8 = 64
width k16 = 32
width k32 = 16

abbrev pub word_count : Size → ℕ
word_count k4 = 4
word_count k8 = 2
word_count k16 = 1
word_count k32 = 1

abbrev pub word_bits : Size → ℕ
word_bits k4 = 32
word_bits k8 = 32
word_bits k16 = 32
word_bits k32 = 16

pub record IsMap (size : Size) (words : List ℕ) : Type 0 where
  pub count : length words ≡ word_count size
  pub fits : (k : ℕ) → get_or words k 0 < 2 ^ word_bits size

word_index_lem :
    (size : Size) (index : ℕ) → index < width size → word_index size index ≡ index / 2 ^ 5
unfolding word_index
word_index_lem k4 index h = refl
word_index_lem k8 index h = refl
word_index_lem k16 index h = omega arith
word_index_lem k32 index h = omega arith

bit_mask_lem :
    (size : Size) (index : ℕ) → index < width size → bit_mask size index ≡ 2 ^ (index % 2 ^ 5)
unfolding bit_mask
bit_mask_lem k4 index h = bit_of_lem index
bit_mask_lem k8 index h = bit_of_lem index
bit_mask_lem k16 index h = mod-eq_of_lt (pow-lt 32 index h) ∙ ap (λ k. 2 ^ k) (omega arith)
bit_mask_lem k32 index h = mod-eq_of_lt (pow-lt 16 index h) ∙ ap (λ k. 2 ^ k) (omega arith)

module _ (size : Size) (index : ℕ) (h : index < width size) where
  pub width_word : (index / 2 ^ 5 < word_count size) × (index % 2 ^ 5 < word_bits size)
  width_word = ground arith

  mask-lt : 2 ^ (index % 2 ^ 5) < 2 ^ word_bits size
  mask-lt = pow-lt (word_bits size) (index % 2 ^ 5) width_word.1

pub word_bits_le : (size : Size) (x : ℕ) → x < 2 ^ word_bits size → x < 2 ^ 32
word_bits_le size x h = ground arith

all_zero-get_or : (words : List ℕ) → all_zero words ≡ true → (k : ℕ) → get_or words k 0 ≡ 0
unfolding all_zero get_or
all_zero-get_or [] e k = refl
all_zero-get_or (w ∷ ws) e zero = ground arith
all_zero-get_or (w ∷ ws) e (suc k) = all_zero-get_or ws (ground arith) k

all_zero_of : (words : List ℕ) → ((k : ℕ) → get_or words k 0 ≡ 0) → all_zero words ≡ true
unfolding all_zero get_or
all_zero_of [] all = refl
all_zero_of (w ∷ ws) all = ground (arith, all 0, all_zero_of ws (λ k. all (suc k)))

-- The code's test of a whole bitmap: no block of the size is free.
pub all_zero_iff :
    (size : Size) (words : List ℕ)
    → IsMap size words
    → (all_zero words ≡ true) ↔ ((j : ℕ) → digit words j ≡ 0)
all_zero_iff size words m =
    let by_word = digit-zero_iff words (λ k. word_bits_le size _ (m.fits k)) in
    (λ e. by_word.0 (all_zero-get_or words e), λ none. all_zero_of words (by_word.1 none))

pub digit_above :
    (size : Size) (words : List ℕ) (j : ℕ) → IsMap size words → width size ≤ j → digit words j ≡ 0
digit_above size words j m h = elim (Bool-cases (ltb (j / 2 ^ 5) (word_count size))) [
  | inl within ↦
      digit_at words j (j / 2 ^ 5) (j % 2 ^ 5) refl refl
      ∙ bit_at_above (word_bits size) _ (j % 2 ^ 5) (m.fits (j / 2 ^ 5)) (ground arith)
  | inr beyond ↦
      digit_at words j (j / 2 ^ 5) (j % 2 ^ 5) refl refl
      ∙ ap (λ w. bit_at w (j % 2 ^ 5)) (get_or_above words (j / 2 ^ 5) 0 (ground (arith, m.count)))
      ∙ bit_at-zero (j % 2 ^ 5)
]

-- `words'` is `words` with the digit of `index` changed to `v`.
pub record Changes (size : Size) (index v : ℕ) (words words' : List ℕ) : Type 0 where
  pub map : IsMap size words'
  pub digits : (j : ℕ) → digit words' j ≡ (if j == index then v else digit words j)

module _ (size : Size) (index : ℕ) (words : List ℕ) (h : index < width size)
    (m : IsMap size words) where
  word_at : ℕ
  word_at = get_or words (index / 2 ^ 5) 0

  in_range : index / 2 ^ 5 < length words
  in_range = omega (arith, m.count, width_word size index h)

  store-Changes :
      (v word : ℕ)
      → word < 2 ^ word_bits size
      → ((i : ℕ) → i < 32 → bit_at word i ≡ (if i == index % 2 ^ 5 then v else bit_at word_at i))
      → Changes size index v words (set words (index / 2 ^ 5) word)
  unfolding word_at
  store-Changes v word lt e = record {
    map = record {
      count = length-set words _ _ ∙ m.count;
      fits = λ k. ground (arith, get_or-set words (index / 2 ^ 5) k word 0 in_range, m.fits k);
    };
    digits = digit-set words index word v in_range e;
  }

  -- Setting a bit.
  pub set_digit-Changes : Returns (set_digit size index words) (Changes size index 1 words)
  unfolding set_digit word_at
  set_digit-Changes = (
    set words (index / 2 ^ 5) (bit_or word_at (2 ^ (index % 2 ^ 5))),
    rw (
      word_index_lem size index h,
      read-ok words (index / 2 ^ 5) 0 in_range,
      bit_mask_lem size index h,
      write-ok words (index / 2 ^ 5) (bit_or word_at (2 ^ (index % 2 ^ 5))) in_range,
    ),
    store-Changes 1 _ (bit_or-lt (word_bits size) _ _ (m.fits _) (mask-lt size index h)) (λ i lt.
        ground (
          arith,
          bit_at-or word_at (2 ^ (index % 2 ^ 5)) i,
          bit_at-pow (index % 2 ^ 5) i,
          bit_at-lt word_at i,
        )),
  )

  -- Clearing a bit: what is returned is 0 exactly if the bit was 0, and the word that was written
  -- is 0 if the whole bitmap is.
  pub record Clears (r : ℕ × ℕ × List ℕ) : Type 0 where
    pub was : (r.0 == 0) ≡ (digit words index == 0)
    pub word : all_zero r.2 ≡ true → (r.1 == 0) ≡ true
    pub changes : Changes size index 0 words r.2

  masked : ℕ
  masked = bit_and word_at (2 ^ (index % 2 ^ 5))

  masked-digit :
      (i : ℕ)
      → i < 32
      → bit_at (bit_and word_at (not_w 32 masked)) i
        ≡ (if i == index % 2 ^ 5 then 0 else bit_at word_at i)
  unfolding masked word_at
  masked-digit i lt = ground (
    arith,
    bit_at-and word_at (not_w 32 masked) i,
    bit_at-not 32 masked i
        (omega (
          arith,
          bit_and-le 32 word_at (2 ^ (index % 2 ^ 5)) (word_bits_le size _ (m.fits _)),
          word_bits_le size _ (m.fits (index / 2 ^ 5)),
        ))
        lt,
    bit_at-and word_at (2 ^ (index % 2 ^ 5)) i,
    bit_at-pow (index % 2 ^ 5) i,
    bit_at-lt word_at i,
  )

  cleared : ℕ
  cleared = bit_and word_at (not_w 32 masked)

  pub clear_digit-Clears : Returns (clear_digit size index words) Clears
  unfolding clear_digit word_at masked cleared
  clear_digit-Clears = (
    (masked, cleared, set words (index / 2 ^ 5) cleared),
    rw (
      word_index_lem size index h,
      read-ok words (index / 2 ^ 5) 0 in_range,
      bit_mask_lem size index h,
      write-ok words (index / 2 ^ 5) cleared in_range,
    ),
    record {
      was = ground (
        arith,
        bit_and-test word_at (index % 2 ^ 5),
        digit-lt words index,
        digit_at words index (index / 2 ^ 5) (index % 2 ^ 5) refl refl,
      );
      word = λ e. ground (
        arith,
        all_zero-get_or _ e (index / 2 ^ 5),
        get_or-set words (index / 2 ^ 5) (index / 2 ^ 5) cleared 0 in_range,
      );
      changes =
          store-Changes 0 cleared
            (omega (
              arith,
              bit_and-le (word_bits size) word_at (not_w 32 masked) (m.fits _),
              m.fits (index / 2 ^ 5),
            ))
            masked-digit;
    },
  )

  -- The test of a bit.
  abbrev test : List ℕ → Run Bool
  test ws = do
    word ← read ws (word_index size index)
    ok (not (bit_and word (bit_mask size index) == 0))

  pub test-digit : test words ≡ ok (digit words index == 1)
  unfolding word_at
  test-digit =
      rw
        (
          word_index_lem size index h,
          read-ok words (index / 2 ^ 5) 0 in_range,
          bit_mask_lem size index h,
        )
        (ap ok (
          bit_and-test word_at (index % 2 ^ 5)
          ∙ ap (λ d. d == 1)
              (sym (digit_at words index (index / 2 ^ 5) (index % 2 ^ 5) refl refl))))
