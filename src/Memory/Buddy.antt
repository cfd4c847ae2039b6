-- ===== src/Memory/Buddy.antt =====
-- kernel/memory/page_allocator.cpp, `struct buddy`: one buddy covers 512k, with a bitmap of free
-- blocks for each of the four block sizes and, for each size, a doubly linked list of the buddies
-- that have a free block of it. The members that the source repeats for each size (`k4`,
-- `prev_k4`, `next_k4`, `mark_alloc_k4`, ...) are here one definition over a `Size`.
--
-- A pointer to a buddy is a number: 0 is `nullptr`, 1 is the list head `first_kN` of
-- `kmem_allocator`, and `i + 2` is `&buddy_array[i]`. `Heap` holds the members of one size.
pub mod Words
pub mod Links
pub mod Marks
pub mod Levels
pub mod Lowest
pub mod Coherent
pub mod Alloc
pub mod FreeUp
pub mod Free
pub mod Cycle
use tinylittleos.Common.{
  ℕ, zero, suc, ◌+◌, ◌-◌, ◌*◌, ◌/◌, ◌%◌, ◌^◌, bit_and, bit_or, bit_xor, Bool, true, false, not,
  ◌&&◌, List, [], ◌∷◌, ◌==◌, if◌then◌else◌,
}
use tinylittleos.Common.Bits.{not_w, ctz}
use tinylittleos.Common.Run.{Run, ok, fault, assert_failed, undefined, ◌>>=◌, read, write}
use tinylittleos.Ds.Bitset.{arr_index, bit_of}

-- The template argument `N`: 4096, 8192, 16384 or 32768.
pub data Size : Type 0 where
  k4 k8 k16 k32 : Size

pub record Node : Type 0 where
  pub words : List ℕ
  pub prev : ℕ
  pub next : ℕ

abbrev pub Heap : Type 0
Heap = ℕ → Node

abbrev pub null : ℕ
null = 0

abbrev pub head : ℕ
head = 1

-- `*p = v`
abbrev pub update : Heap → ℕ → Node → Heap
update h p v q = if q == p then v else h q

-- `index >> 5` and `1 << (index & 0x1F)` for the arrays; `k16` and `k32` are single words, where
-- `1 << index` is cut to the word's width.
unfoldable pub word_index : Size → ℕ → ℕ
word_index k4 index = arr_index index
word_index k8 index = arr_index index
word_index k16 index = 0
word_index k32 index = 0

unfoldable pub bit_mask : Size → ℕ → ℕ
bit_mask k4 index = bit_of index
bit_mask k8 index = bit_of index
bit_mask k16 index = 2 ^ index % 2 ^ 32
bit_mask k32 index = 2 ^ index % 2 ^ 16

unfoldable pub all_zero : List ℕ → Bool
all_zero [] = true
all_zero (w ∷ ws) = (w == 0) && all_zero ws

-- `p->next = v` and `p->prev = v`
abbrev pub set_next : Heap → ℕ → ℕ → Heap
set_next h p v = update h p (record (h p) { next = v })

abbrev pub set_prev : Heap → ℕ → ℕ → Heap
set_prev h p v = update h p (record (h p) { prev = v })

-- "unlink from kN"
unfoldable pub unlink : ℕ → Heap → Heap
unlink this h =
    let h1 = if (h this).prev == null then h else set_next h (h this).prev (h this).next in
    let h2 = if (h1 this).next == null then h1 else set_prev h1 (h1 this).next (h1 this).prev in
    update h2 this (record (h2 this) { next = null; prev = null })

-- "link to kN"
unfoldable pub link : ℕ → Heap → Heap
link this h =
    let h1 = set_next h this (h head).next in
    let h2 = if (h1 this).next == null then h1 else set_prev h1 (h1 this).next this in
    set_next (set_prev h2 this head) head this

-- The bitmap part of `mark_alloc_kN`: whether the bit was set, and the words with it cleared.
unfoldable pub clear_digit : Size → ℕ → List ℕ → Run (ℕ × ℕ × List ℕ)
clear_digit size index words = do
  word ← read words (word_index size index)
  let res = bit_and word (bit_mask size index)
  let word' = bit_and word (not_w 32 res)
  words' ← write words (word_index size index) word'
  ok (res, word', words')

-- `mark_alloc_kN`: returns 0 if the block was already allocated.
unfoldable pub mark_alloc : Size → (this index : ℕ) → Heap → Run (ℕ × Heap)
unfolding clear_digit unlink all_zero
mark_alloc size this index h = do
  (res, word, words) ← clear_digit size index (h this).words
  let h' = update h this (record (h this) { words = words })
  ok (res, if (word == 0) && all_zero words then unlink this h' else h')

-- The bitmap part of `mark_free_kN`.
unfoldable pub set_digit : Size → ℕ → List ℕ → Run (List ℕ)
set_digit size index words = do
  word ← read words (word_index size index)
  write words (word_index size index) (bit_or word (bit_mask size index))

unfoldable pub mark_free : Size → (this index : ℕ) → Heap → Run Heap
unfolding set_digit link all_zero
mark_free size this index h =
    let h1 = if ((h this).prev == null) && all_zero (h this).words then link this h else h in
    do
      words ← set_digit size index (h1 this).words
      ok (update h1 this (record (h1 this) { words = words }))

-- The members of the four sizes.
pub record Buddies : Type 0 where
  pub k4 : Heap
  pub k8 : Heap
  pub k16 : Heap
  pub k32 : Heap

abbrev pub level : Size → Buddies → Heap
level k4 b = b.k4
level k8 b = b.k8
level k16 b = b.k16
level k32 b = b.k32

abbrev pub with_level : Size → Heap → Buddies → Buddies
with_level k4 h b = record b { k4 = h }
with_level k8 h b = record b { k8 = h }
with_level k16 h b = record b { k16 = h }
with_level k32 h b = record b { k32 = h }

unfoldable pub mark : Size → (this index : ℕ) → Buddies → Run (ℕ × Buddies)
mark size this index b = do
  (res, h) ← mark_alloc size this index (level size b)
  ok (res, with_level size h b)

-- `mark_alloc_kN` of `count` blocks in a row, from `index` on.
unfoldable pub mark_row : Size → (count this index : ℕ) → Buddies → Run Buddies
mark_row size zero this index b = ok b
mark_row size (suc count) this index b = do
  (_, b') ← mark size this index b
  mark_row size count this (index + 1) b'

-- The first word that is not 0; the `kassert` behind the search fails if there is none.
unfoldable pub first_nonzero : ℕ → List ℕ → Run ℕ
first_nonzero i [] = fault assert_failed
first_nonzero i (w ∷ ws) = let rest = first_nonzero (i + 1) ws in if w == 0 then rest else ok i

unfoldable pub lowest_in_array : List ℕ → Run ℕ
lowest_in_array words = do
  arr ← first_nonzero 0 words
  word ← read words arr
  ok (arr * 2 ^ 5 + ctz 32 word)

-- `__builtin_ctz(0)` is undefined.
unfoldable pub lowest_in_word : List ℕ → Run ℕ
lowest_in_word words = do
  word ← read words 0
  if word == 0 then fault undefined else ok (ctz 32 word)

-- `alloc<N>` without the address: the index of the block.
unfoldable pub alloc : Size → (this : ℕ) → Buddies → Run (ℕ × Buddies)
alloc k4 this b = do
  index ← lowest_in_array (b.k4 this).words
  (_, b1) ← mark k4 this index b
  (res8, b2) ← mark k8 this (index / 2 ^ 1) b1
  if res8 == 0 then ok (index, b2) else do
    (res16, b3) ← mark k16 this (index / 2 ^ 2) b2
    if res16 == 0
        then ok (index, b3)
        else do (_, b4) ← mark k32 this (index / 2 ^ 3) b3; ok (index, b4)
alloc k8 this b = do
  index ← lowest_in_array (b.k8 this).words
  b1 ← mark_row k4 2 this (index * 2 ^ 1) b
  (_, b2) ← mark k8 this index b1
  (res16, b3) ← mark k16 this (index / 2 ^ 1) b2
  if res16 == 0
      then ok (index, b3)
      else do (_, b4) ← mark k32 this (index / 2 ^ 2) b3; ok (index, b4)
alloc k16 this b = do
  index ← lowest_in_word (b.k16 this).words
  b1 ← mark_row k4 4 this (index * 2 ^ 2) b
  b2 ← mark_row k8 2 this (index * 2 ^ 1) b1
  (_, b3) ← mark k16 this index b2
  (_, b4) ← mark k32 this (index / 2 ^ 1) b3
  ok (index, b4)
alloc k32 this b = do
  index ← lowest_in_word (b.k32 this).words
  (_, b1) ← mark k32 this index b
  b2 ← mark_row k4 8 this (index * 2 ^ 3) b1
  b3 ← mark_row k8 4 this (index * 2 ^ 2) b2
  b4 ← mark_row k16 2 this (index * 2 ^ 1) b3
  ok (index, b4)

unfoldable pub unmark : Size → (this index : ℕ) → Buddies → Run Buddies
unmark size this index b = do h ← mark_free size this index (level size b); ok (with_level size h b)

-- `free_down<N>`
unfoldable pub free_down_k8 : (this index : ℕ) → Buddies → Run Buddies
free_down_k8 this index b = do
  b1 ← unmark k4 this (index * 2) b
  unmark k4 this (bit_xor (index * 2) 1) b1

unfoldable pub free_down_k16 : (this index : ℕ) → Buddies → Run Buddies
free_down_k16 this index b = do
  b1 ← unmark k8 this (index * 2) b
  b2 ← free_down_k8 this (index * 2) b1
  b3 ← unmark k8 this (bit_xor (index * 2) 1) b2
  free_down_k8 this (bit_xor (index * 2) 1) b3

unfoldable pub free_down_k32 : (this index : ℕ) → Buddies → Run Buddies
free_down_k32 this index b = do
  b1 ← unmark k16 this (index * 2) b
  b2 ← free_down_k16 this (index * 2) b1
  b3 ← unmark k16 this (bit_xor (index * 2) 1) b2
  free_down_k16 this (bit_xor (index * 2) 1) b3

unfoldable pub free_down : Size → (this index : ℕ) → Buddies → Run Buddies
free_down k4 this index b = ok b
free_down k8 this index b = free_down_k8 this index b
free_down k16 this index b = free_down_k16 this index b
free_down k32 this index b = free_down_k32 this index b

-- `kN[index >> 5] & (1 << (index & 0x1F))`, the test of `free_up`.
unfoldable pub is_free : Size → (this index : ℕ) → Buddies → Run Bool
is_free size this index b = do
  word ← read (level size b this).words (word_index size index)
  ok (not (bit_and word (bit_mask size index) == 0))

-- `free_up<N>`
unfoldable pub free_up_k16 : (this index : ℕ) → Buddies → Run Buddies
free_up_k16 this index b = do
  b1 ← unmark k16 this index b
  both ← is_free k16 this (bit_xor index 1) b1
  if both then unmark k32 this (bit_xor index 1 / 2) b1 else ok b1

unfoldable pub free_up_k8 : (this index : ℕ) → Buddies → Run Buddies
free_up_k8 this index b = do
  b1 ← unmark k8 this index b
  both ← is_free k8 this (bit_xor index 1) b1
  if both then free_up_k16 this (bit_xor index 1 / 2) b1 else ok b1

unfoldable pub free_up_k4 : (this index : ℕ) → Buddies → Run Buddies
free_up_k4 this index b = do
  b1 ← unmark k4 this index b
  both ← is_free k4 this (bit_xor index 1) b1
  if both then free_up_k8 this (bit_xor index 1 / 2) b1 else ok b1

unfoldable pub free_up : Size → (this index : ℕ) → Buddies → Run Buddies
free_up k4 this index b = free_up_k4 this index b
free_up k8 this index b = free_up_k8 this index b
free_up k16 this index b = free_up_k16 this index b
free_up k32 this index b = unmark k32 this index b

unfoldable pub free : Size → (this index : ℕ) → Buddies → Run Buddies
free size this index b = do b1 ← free_up size this index b; free_down size this index b1
