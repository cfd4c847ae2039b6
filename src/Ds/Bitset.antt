-- ===== src/Ds/Bitset.antt =====
-- kernel/util/ds/bitset.hpp: a set of small numbers as an array of 32-bit words. An access outside
-- `m_set` is a fault. (`(1 << 31) - 1` on `int` is taken to wrap round, as the compiler does.)
pub mod Laws
pub mod Find
pub mod Loops
pub mod Prefix
mod Tests
use tinylittleos.Common.{
  ℕ, zero, suc, ◌+◌, ◌-◌, ◌*◌, ◌/◌, ◌^◌, bit_and, bit_or, Bool, true, false, not, List, [], ◌∷◌,
  ◌==◌, if◌then◌else◌, length, replicate,
}
use tinylittleos.Common.Bits.{not_w, ctz}
use tinylittleos.Common.Run.{Run, ok, ◌>>=◌, read, write}

pub record Bitset : Type 0 where
  pub m_set : List ℕ

abbrev pub all_ones : ℕ
all_ones = 2 ^ 32 - 1

-- `bitset<bits>::int_count`
abbrev pub int_count : ℕ → ℕ
int_count bits = (bits + 31) / 32

-- The constructor.
unfoldable pub empty : ℕ → Bitset
empty bits = record { m_set = replicate (int_count bits) 0 }

-- `index >> 5` and `1 << (index & 0x1F)`
abbrev pub arr_index : ℕ → ℕ
arr_index index = index / 2 ^ 5

abbrev pub bit_of : ℕ → ℕ
bit_of index = 2 ^ bit_and index 0x1f

unfoldable pub set_bit : Bitset → ℕ → Run Bitset
set_bit s index = do
  word ← read s.m_set (arr_index index)
  words ← write s.m_set (arr_index index) (bit_or word (bit_of index))
  ok (record s { m_set = words })

unfoldable pub clear_bit : Bitset → ℕ → Run Bitset
clear_bit s index = do
  word ← read s.m_set (arr_index index)
  words ← write s.m_set (arr_index index) (bit_and word (not_w 32 (bit_of index)))
  ok (record s { m_set = words })

unfoldable pub has_bit : Bitset → ℕ → Run Bool
has_bit s index = do
  word ← read s.m_set (arr_index index)
  ok (not (bit_and word (bit_of index) == 0))

-- The loop of `find_bit`, at word `i`.
unfoldable pub find_from : ℕ → List ℕ → ℕ
find_from i [] = all_ones
find_from i (word ∷ words) =
    let rest = find_from (i + 1) words in if word == 0 then rest else i * 2 ^ 5 + ctz 32 word

unfoldable pub find_bit : Bitset → ℕ
find_bit s = find_from 0 s.m_set

-- `for (; left > 0; i++, left--) m_set[i] = v`
unfoldable pub fill : ℕ → ℕ → ℕ → List ℕ → Run (List ℕ)
fill v zero i words = ok words
fill v (suc left) i words = do words' ← write words i v; fill v left (i + 1) words'

-- `for (; left > 0; i++, left--) if (m_set[i] != v) return false`
unfoldable pub all_equal : ℕ → ℕ → ℕ → List ℕ → Run Bool
all_equal v zero i words = ok true
all_equal v (suc left) i words = do
  word ← read words i
  let rest = all_equal v left (i + 1) words
  if word == v then rest else ok false

unfoldable pub set_all_until : Bitset → ℕ → Run Bitset
set_all_until s index = do
  filled ← fill all_ones (arr_index index) 0 s.m_set
  words ← write filled (arr_index index) (bit_of index - 1)
  ok (record s { m_set = words })

unfoldable pub clear_all : Bitset → Run Bitset
clear_all s = do words ← fill 0 (length s.m_set) 0 s.m_set; ok (record s { m_set = words })

-- The end of `all_set_until` and `all_clear_until`: the word with the last few bits.
unfoldable pub rest_equals : ℕ → Bitset → ℕ → Bool → Run Bool
rest_equals v s index false = ok false
rest_equals v s index true = do
  word ← read s.m_set (arr_index index)
  ok (bit_and word (bit_of index - 1) == v)

unfoldable pub all_set_until : Bitset → ℕ → Run Bool
all_set_until s index = do
  before ← all_equal all_ones (arr_index index) 0 s.m_set
  rest_equals (bit_of index - 1) s index before

unfoldable pub all_clear_until : Bitset → ℕ → Run Bool
all_clear_until s index = do
  before ← all_equal 0 (arr_index index) 0 s.m_set
  rest_equals 0 s index before

unfoldable pub all_clear : Bitset → Run Bool
all_clear s = all_equal 0 (length s.m_set) 0 s.m_set
