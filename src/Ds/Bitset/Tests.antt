-- ===== src/Ds/Bitset/Tests.antt =====
-- kernel/util/ds/bitset.hpp on a set of 64 numbers.
use tinylittleos.Common.{ℕ, zero, suc, ◌<◌, ◌^◌, ◌≡◌, refl, [], ◌∷◌, arith, get_or}
use tinylittleos.Common.Bits.{ctz}
use tinylittleos.Ds.Bitset.{Bitset, find_bit, find_from}
use tinylittleos.Ds.Bitset.Laws.{IsWords}

abbrev two_words : Bitset
two_words = record { m_set = 0 ∷ 7 ∷ [] }

two_words-IsWords : IsWords 2 two_words
unfolding get_or
two_words-IsWords = record { size = refl; fits = fits }
  where
    fits : (i : ℕ) → get_or (0 ∷ 7 ∷ []) i 0 < 2 ^ 32
    fits zero = omega arith
    fits (suc zero) = omega arith
    fits (suc (suc i)) = omega arith

find_two_words : find_bit two_words ≡ 32
unfolding find_bit find_from ctz
find_two_words = refl
