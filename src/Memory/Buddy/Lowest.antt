-- ===== src/Memory/Buddy/Lowest.antt =====
-- kernel/memory/page_allocator.cpp: how `alloc<N>` chooses a block, by the first word that is not 0
-- and `__builtin_ctz`.
use tinylittleos.Common.{
  ℕ, suc, ◌+◌, ◌*◌, ◌^◌, ◌<◌, ◌≡◌, sym, ap, ◌∙◌, inl, inr, false, List, [], ◌∷◌, arith, ◌==◌,
  Bool-cases, length, get_or,
}
use tinylittleos.Common.Bits.{ctz}
use tinylittleos.Common.Words.{digit}
use tinylittleos.Common.Run.{ok, read, Returns, read-ok}
use tinylittleos.Ds.Bitset.{find_from}
use tinylittleos.Ds.Bitset.Find.{Finds, find_from-Finds}
use tinylittleos.Memory.Buddy.{Size, all_zero, first_nonzero, lowest_in_array, lowest_in_word}
use tinylittleos.Memory.Buddy.Words.{width, IsMap, word_bits_le, all_zero_iff, digit_above}

first_nonzero-find :
    (i : ℕ) (ws : List ℕ)
    → all_zero ws ≡ false
    → (a : ℕ) × (first_nonzero i ws ≡ ok (i + a))
      × (a < length ws)
      × (find_from i ws ≡ (i + a) * 2 ^ 5 + ctz 32 (get_or ws a 0))
unfolding first_nonzero find_from all_zero get_or
first_nonzero-find i [] e = cc
first_nonzero-find i (w ∷ ws) e = elim (Bool-cases (w == 0)) [
  | inl zeros ↦
      let (a, run, lt, found) = first_nonzero-find (i + 1) ws (ground arith) in
      (
        suc a,
        rw (zeros, first_nonzero) (run ∙ ap ok (omega arith)),
        omega arith,
        rw (zeros, find_from)
            (found ∙ ap (λ (k : ℕ). k * 2 ^ 5 + ctz 32 (get_or ws a 0)) (omega arith)),
      )
  | inr some ↦ (
    0,
    rw (some, first_nonzero) (ap ok (omega arith)),
    omega arith,
    rw (some, find_from) (omega arith),
  )
]

word-find :
    (words : List ℕ)
    → length words ≡ 1
    → all_zero words ≡ false
    → lowest_in_word words ≡ ok (find_from 0 words)
unfolding lowest_in_word find_from all_zero read
word-find [] e some = absurd (omega arith)
word-find (w ∷ []) e some = ground arith
word-find (w ∷ v ∷ ws) e some = absurd (omega arith)

-- The block is free, and no block before it is.
pub record Chosen (size : Size) (words : List ℕ) (index : ℕ) : Type 0 where
  pub within : index < width size
  pub free : digit words index ≡ 1
  pub first : (j : ℕ) → j < index → digit words j ≡ 0

module _ (size : Size) (words : List ℕ) (m : IsMap size words) (some : all_zero words ≡ false) where
  find-Chosen : Chosen size words (find_from 0 words)
  find-Chosen = chosen (find_from-Finds words (λ k. word_bits_le size _ (m.fits k)))
    where
      none_free : ((j : ℕ) → digit words j ≡ 0) → ⊥
      none_free all = ground (arith, (all_zero_iff size words m).1 all)

      chosen :
          Finds (digit words) (length words * 32) (find_from 0 words)
          → Chosen size words (find_from 0 words)
      chosen (inl (lt, one, before)) = record {
        within = ground (arith, digit_above size words (find_from 0 words) m);
        free = one;
        first = before;
      }
      chosen (inr (e, all)) = absurd (none_free all)

  pub lowest_in_array-Chosen : Returns (lowest_in_array words) (Chosen size words)
  unfolding lowest_in_array
  lowest_in_array-Chosen =
      let (a, run, lt, found) = first_nonzero-find 0 words some in
      (
        find_from 0 words,
        rw (run, read-ok words (0 + a) 0 (omega arith))
            (ap ok (
              sym (
                found
                ∙ ap (λ (k : ℕ). (0 + a) * 2 ^ 5 + ctz 32 (get_or words k 0)) (omega arith)))),
        find-Chosen,
      )

  pub lowest_in_word-Chosen : length words ≡ 1 → Returns (lowest_in_word words) (Chosen size words)
  lowest_in_word-Chosen e = (find_from 0 words, word-find words e some, find-Chosen)
