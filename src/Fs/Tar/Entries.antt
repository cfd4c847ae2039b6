-- ===== src/Fs/Tar/Entries.antt =====
-- kernel/fs/tar.cpp: what an archive is, and the loops over one name of it.
use tinylittleos.Common.{
  ℕ, zero, suc, ◌+◌, ◌%◌, ◌^◌, ◌<◌, ◌≡◌, ◌≢◌, true, false, ◌==◌, if◌then◌else◌, List, [], ◌∷◌,
  length, Option, none, some, arith,
}
use tinylittleos.Common.Run.{ok}
use tinylittleos.Util.Cstr.{Memory}
use tinylittleos.Fs.Tar.{
  is_header, file_size, next_header, add_slashes, pass_slashes, segment_end, pass_name, Passed,
  found, passed,
}

-- The bytes of a string, none of them zero.
abbrev pub IsText : List ℕ → Type 0
IsText [] = Unit {0}
IsText (c ∷ text) = (c ≢ 0) × IsText text

-- The text stands at the address, and a zero byte behind it.
abbrev pub Holds : Memory → (ptr : ℕ) → List ℕ → Type 0
Holds m ptr [] = m ptr ≡ 0
Holds m ptr (c ∷ text) = (m ptr ≡ c) × (c ≢ 0) × Holds m (ptr + 1) text

pub record Entry : Type 0 where
  pub name : List ℕ
  pub size : ℕ

-- Headers one behind the other, with the names and sizes of the entries, and no header behind.
abbrev pub Archive : Memory → (ptr room : ℕ) → List Entry → Type 0
Archive m ptr room [] = is_header ptr m ≡ false
Archive m ptr room (e ∷ es) =
    (is_header ptr m ≡ true)
    × Holds m ptr e.name
    × (length e.name < room)
    × (file_size ptr m ≡ e.size)
    × Archive m (next_header ptr e.size) room es

-- The "/" of a text: an entry has a number for each of them, and one more.
unfoldable pub slashes : List ℕ → ℕ
slashes [] = 0
slashes (c ∷ text) = if c == b'/' then slashes text + 1 else slashes text

unfoldable pub numbers : List Entry → ℕ
unfolding slashes
numbers [] = 0
numbers (e ∷ es) = slashes e.name + 1 + numbers es

pub add_slashes_lem :
    (text : List ℕ) (n : ℕ) → n + slashes text < 2 ^ 32 → add_slashes text n ≡ n + slashes text
unfolding add_slashes slashes
add_slashes_lem [] n h = omega arith
add_slashes_lem (c ∷ text) n h =
    ground (arith, add_slashes_lem text n, add_slashes_lem text ((n + 1) % 2 ^ 32))

pub pass_slashes_lem :
    (text : List ℕ) (room ptr n : ℕ) (m : Memory)
    → Holds m ptr text
    → length text < room
    → n + slashes text < 2 ^ 32
    → pass_slashes room ptr n m ≡ ok (n + slashes text)
unfolding pass_slashes slashes
pass_slashes_lem text zero ptr n m holds h fits = absurd (omega arith)
pass_slashes_lem [] (suc room) ptr n m holds h fits = ground (arith)
pass_slashes_lem (c ∷ text) (suc room) ptr n m holds h fits = ground (
  arith,
  pass_slashes_lem text room (ptr + 1) n m,
  pass_slashes_lem text room (ptr + 1) ((n + 1) % 2 ^ 32) m,
)

-- The text up to its first "/".
unfoldable pub first_segment : List ℕ → ℕ
first_segment [] = 0
first_segment (c ∷ text) = if c == b'/' then 0 else first_segment text + 1

pub segment_end_lem :
    (text : List ℕ) (room ptr : ℕ) (m : Memory)
    → Holds m ptr text
    → length text < room
    → segment_end room ptr m ≡ ok (ptr + first_segment text)
unfolding segment_end first_segment
segment_end_lem text zero ptr m holds h = absurd (omega arith)
segment_end_lem [] (suc room) ptr m holds h = ground arith
segment_end_lem (c ∷ text) (suc room) ptr m holds h =
    ground (arith, segment_end_lem text room (ptr + 1) m)

-- The text up to the "/" behind the one with the number, where anything stands behind that.
unfoldable pub prefix_length : (number : ℕ) → List ℕ → Option ℕ
unfolding first_segment
prefix_length number [] = none
prefix_length zero (c ∷ text) = some (first_segment (c ∷ text))
prefix_length (suc number) (c ∷ text) =
    elim (prefix_length (if c == b'/' then number else suc number) text) [
      | none ↦ none
      | some n ↦ some (n + 1)
    ]

-- Where the name holds the number, or the number behind the name.
unfoldable pub passed_of : (ptr curr_inode : ℕ) → List ℕ → Option ℕ → Passed
passed_of ptr curr_inode text none = passed (curr_inode + slashes text)
passed_of ptr curr_inode text (some n) = found (ptr + n)

pub pass_name_lem :
    (text : List ℕ) (room ptr n number : ℕ) (m : Memory)
    → Holds m ptr text
    → length text < room
    → n + slashes text < 2 ^ 32
    → pass_name room ptr n (n + number) m ≡ ok (passed_of ptr n text (prefix_length number text))
unfolding pass_name slashes prefix_length passed_of
pass_name_lem text zero ptr n number m holds h fits = absurd (omega arith)
pass_name_lem [] (suc room) ptr n number m holds h fits = ground arith
pass_name_lem (c ∷ text) (suc room) ptr n zero m holds h fits =
    ground (arith, segment_end_lem (c ∷ text) (suc room) ptr m)
pass_name_lem (c ∷ text) (suc room) ptr n (suc number) m holds h fits = ground (
  arith,
  pass_name_lem text room (ptr + 1) n (suc number) m,
  pass_name_lem text room (ptr + 1) ((n + 1) % 2 ^ 32) number m,
)
