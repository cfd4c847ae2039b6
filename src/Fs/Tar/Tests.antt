-- ===== src/Fs/Tar/Tests.antt =====
-- kernel/fs/tar.cpp on an archive of a directory with a file of three bytes.
use tinylittleos.Common.{ℕ, ◌+◌, ◌==◌, ◌≡◌, refl, if◌then◌else◌, List, [], ◌∷◌, arith}
use tinylittleos.Common.Run.{ok}
use tinylittleos.Util.Cstr.{Memory}
use tinylittleos.Util.Errno.{success, failure, no_entry}
use tinylittleos.Fs.Tar.{
  ustar, parse_oct, starts_with, File, Named, tar_lookup, tar_lookup_by_index,
}
use tinylittleos.Fs.Tar.Entries.{Entry, Archive, numbers}
use tinylittleos.Fs.Tar.Number.{Agrees, tar_lookup_by_index-tar_lookup}

abbrev put_text : (ptr : ℕ) → List ℕ → Memory → Memory
put_text ptr [] m = m
put_text ptr (c ∷ text) m = put_text (ptr + 1) text (λ x. if x == ptr then c else m x)

abbrev digits : (last : ℕ) → List ℕ
digits last = 48 ∷ 48 ∷ 48 ∷ 48 ∷ 48 ∷ 48 ∷ 48 ∷ 48 ∷ 48 ∷ 48 ∷ last ∷ []

abbrev header : (ptr : ℕ) → (name : List ℕ) → (last : ℕ) → Memory → Memory
header ptr name last m =
    put_text ptr name (put_text (ptr + 0x7c) (digits last) (put_text (ptr + 257) ustar m))

abbrev directory : List ℕ
directory = b'd' ∷ b'/' ∷ []

abbrev pub file : List ℕ
file = b'd' ∷ b'/' ∷ b'a' ∷ []

abbrev pub tape : Memory
tape = header 0 directory b'0' (header 512 file b'3' (λ _. 0))

abbrev pub entries : List Entry
entries = record { name = directory; size = 0 } ∷ record { name = file; size = 3 } ∷ []

pub tape-Archive : Archive tape 0 8 entries
unfolding parse_oct starts_with
tape-Archive = (
  refl,
  (refl, omega arith, (refl, omega arith, refl)),
  omega arith,
  refl,
  (
    refl,
    (refl, omega arith, (refl, omega arith, (refl, omega arith, refl))),
    omega arith,
    refl,
    refl,
  ),
)

abbrev pub file_found : File
file_found = record { inode = 6; content = 1024; file_len = 3 }

pub file-found : tar_lookup 3 8 0 file tape ≡ ok (success file_found)
unfolding tar_lookup
file-found = refl

tar_lookup_by_index-tar_lookup_example :
    (r : Named) × (tar_lookup_by_index 3 8 0 6 tape ≡ ok (success r))
    × Agrees tape file file_found r
tar_lookup_by_index-tar_lookup_example =
    tar_lookup_by_index-tar_lookup entries file 3 8 0 tape file_found (omega arith) tape-Archive
      (omega arith) (unfold numbers in ground arith) (omega arith) file-found

-- The directory is found by its name without "/", as the number before that of the path with it.
directory_found :
    tar_lookup 3 8 0 (b'd' ∷ []) tape
    ≡ ok (success (record { inode = 3; content = 512; file_len = 0 }))
unfolding tar_lookup
directory_found = refl

no_file : tar_lookup 3 8 0 (b'a' ∷ []) tape ≡ ok (failure no_entry)
unfolding tar_lookup
no_file = refl

-- With "/" behind it the number is one that no name has.
trailing_slash :
    (tar_lookup 3 8 0 directory tape
      ≡ ok (success (record { inode = 4; content = 512; file_len = 0 })))
    × (tar_lookup_by_index 3 8 0 4 tape ≡ ok (failure no_entry))
unfolding tar_lookup tar_lookup_by_index
trailing_slash = (refl, refl)
