-- ===== src/Fs/Tar/Search.antt =====
-- kernel/fs/tar.cpp: `tar_lookup` of a path in an archive.
use tinylittleos.Common.{
  ℕ, zero, suc, ◌+◌, ◌^◌, ◌<◌, ◌≤◌, ◌≡◌, ap, Bool, true, false, ◌&&◌, ◌||◌, ◌==◌, if◌then◌else◌,
  List, [], ◌∷◌, length, Option, none, some, arith,
}
use tinylittleos.Common.Run.{ok}
use tinylittleos.Util.Cstr.{Memory}
use tinylittleos.Util.Errno.{Outcome, success, failure, no_entry}
use tinylittleos.Fs.Tar.{starts_with, next_header, File, tar_lookup_from, tar_lookup}
use tinylittleos.Fs.Tar.Entries.{
  IsText, Holds, Entry, Archive, slashes, numbers, add_slashes_lem, pass_slashes_lem,
}

-- The name is the path, or lies below it.
unfoldable pub covers : (filename name : List ℕ) → Bool
covers [] [] = true
covers [] (c ∷ name) = c == b'/'
covers (f ∷ filename) [] = false
covers (f ∷ filename) (c ∷ name) = c == f && covers filename name

-- The first entry whose name the path covers. A directory has length 0.
unfoldable pub find_name : (filename : List ℕ) → List Entry → (ptr inode : ℕ) → Option File
unfolding slashes covers
find_name filename [] ptr inode = none
find_name filename (e ∷ es) ptr inode =
    if covers filename e.name
    then some (record {
      inode = inode + slashes filename;
      content = ptr + 512;
      file_len = if length filename == length e.name then e.size else 0;
    })
    else find_name filename es (next_header ptr e.size) (inode + slashes e.name + 1)

abbrev pub found_or_no_entry : Option File → Outcome File
found_or_no_entry none = failure no_entry
found_or_no_entry (some f) = success f

pub starts_with-covers :
    (filename name : List ℕ) (ptr : ℕ) (m : Memory)
    → IsText filename
    → Holds m ptr name
    → (starts_with filename ptr m
        && (m (ptr + length filename) == 0 || m (ptr + length filename) == b'/'))
      ≡ covers filename name
unfolding starts_with covers
starts_with-covers [] [] ptr m text holds = ground arith
starts_with-covers [] (c ∷ name) ptr m text holds = ground arith
starts_with-covers (f ∷ filename) [] ptr m text holds = ground arith
starts_with-covers (f ∷ filename) (c ∷ name) ptr m text holds = ground (
  arith,
  starts_with-covers filename name (ptr + 1) m,
  ap m {x = ptr + suc (length filename)} {y = ptr + 1 + length filename},
)

pub Holds-end :
    (filename name : List ℕ) (ptr : ℕ) (m : Memory)
    → covers filename name ≡ true
    → Holds m ptr name
    → (m (ptr + length filename) == 0) ≡ (length filename == length name)
unfolding covers
Holds-end [] [] ptr m h holds = ground arith
Holds-end [] (c ∷ name) ptr m h holds = ground arith
Holds-end (f ∷ filename) [] ptr m h holds = ground arith
Holds-end (f ∷ filename) (c ∷ name) ptr m h holds = ground (
  arith,
  Holds-end filename name (ptr + 1) m,
  ap m {x = ptr + suc (length filename)} {y = ptr + 1 + length filename},
)

pub slashes-covers :
    (filename name : List ℕ) → covers filename name ≡ true → slashes filename ≤ slashes name
unfolding covers slashes
slashes-covers [] name h = ground arith
slashes-covers (f ∷ filename) [] h = ground arith
slashes-covers (f ∷ filename) (c ∷ name) h = ground (arith, slashes-covers filename name)

tar_lookup_from_lem :
    (es : List Entry) (filename : List ℕ) (fuel room ptr n : ℕ) (m : Memory)
    → IsText filename
    → Archive m ptr room es
    → length es < fuel
    → n + numbers es < 2 ^ 32
    → tar_lookup_from fuel room ptr n filename m
      ≡ ok (found_or_no_entry (find_name filename es ptr n))
unfolding tar_lookup_from find_name numbers
tar_lookup_from_lem es filename zero room ptr n m text a fuel fits = absurd (omega arith)
tar_lookup_from_lem [] filename (suc fuel) room ptr n m text a h fits = ground arith
tar_lookup_from_lem (e ∷ es) filename (suc fuel) room ptr n m text a h fits = ground (
  arith,
  starts_with-covers filename e.name ptr m,
  Holds-end filename e.name ptr m,
  slashes-covers filename e.name,
  add_slashes_lem filename n,
  pass_slashes_lem e.name room ptr n m,
  tar_lookup_from_lem es filename fuel room (next_header ptr e.size) (n + slashes e.name + 1) m,
)

pub tar_lookup-Finds :
    (es : List Entry) (filename : List ℕ) (fuel room archive : ℕ) (m : Memory)
    → IsText filename
    → Archive m archive room es
    → length es < fuel
    → 3 + numbers es < 2 ^ 32
    → length filename ≤ 99
    → tar_lookup fuel room archive filename m
      ≡ ok (found_or_no_entry (find_name filename es archive 3))
unfolding tar_lookup
tar_lookup-Finds es filename fuel room archive m text a h fits short =
    ground (arith, tar_lookup_from_lem es filename fuel room archive 3 m)
