-- ===== src/Fs/Tar.antt =====
-- kernel/fs/tar.cpp: the file system of a tar archive in memory. Memory is a function from addresses
-- to bytes; a `string_buf` is the list of its bytes. The loops over the archive and over the zero-
-- terminated names in it run on fuel (`fuel` headers, `room` bytes).
pub mod Entries
pub mod Search
pub mod Number
pub mod Inode
mod Tests
use tinylittleos.Common.{
  ℕ, zero, suc, ◌+◌, ◌-◌, ◌*◌, ◌/◌, ◌%◌, ◌^◌, Bool, true, false, ◌&&◌, ◌||◌, ◌==◌, ltb, leb,
  if◌then◌else◌, List, [], ◌∷◌, ◌++◌, length,
}
use tinylittleos.Common.Run.{Run, ok, fault, out_of_fuel, null_pointer, ◌>>=◌}
use tinylittleos.Util.Cstr.{Memory, memcpy}
use tinylittleos.Util.Errno.{Outcome, success, failure, path_too_long, no_entry}

-- The loop of `parse_oct`, in 32 bits.
unfoldable pub parse_oct : (size str n : ℕ) → Memory → ℕ
parse_oct zero str n m = n
parse_oct (suc size) str n m =
    parse_oct size (str + 1) ((n * 8 % 2 ^ 32 + m str + (2 ^ 32 - 48)) % 2 ^ 32) m

-- `!memcmp(ptr, text, length)`
unfoldable pub starts_with : List ℕ → (ptr : ℕ) → Memory → Bool
starts_with [] ptr m = true
starts_with (c ∷ text) ptr m = m ptr == c && starts_with text (ptr + 1) m

abbrev pub ustar : List ℕ
ustar = b'u' ∷ b's' ∷ b't' ∷ b'a' ∷ b'r' ∷ []

abbrev pub is_header : (ptr : ℕ) → Memory → Bool
is_header ptr m = starts_with ustar (ptr + 257) m

abbrev pub file_size : (ptr : ℕ) → Memory → ℕ
file_size ptr m = parse_oct 11 (ptr + 0x7c) 0 m

-- `ptr += (((filesize + 511) / 512) + 1) * 512`
abbrev pub next_header : (ptr filesize : ℕ) → ℕ
next_header ptr filesize = ptr + ((filesize + 511) % 2 ^ 32 / 512 + 1) * 512 % 2 ^ 32

-- `++` of a `uint32_t`
abbrev pub increment : ℕ → ℕ
increment n = (n + 1) % 2 ^ 32

-- Add 1 for each "/" of the text.
unfoldable pub add_slashes : List ℕ → (inode : ℕ) → ℕ
add_slashes [] inode = inode
add_slashes (c ∷ text) inode = add_slashes text (if c == b'/' then increment inode else inode)

-- The same of a zero-terminated string.
unfoldable pub pass_slashes : (room slash_ptr inode : ℕ) → Memory → Run ℕ
pass_slashes zero slash_ptr inode m = fault out_of_fuel
pass_slashes (suc room) slash_ptr inode m =
    let rest =
      pass_slashes room (slash_ptr + 1) (if m slash_ptr == b'/' then increment inode else inode)
        m in
    if m slash_ptr == 0 then ok inode else rest

-- What `tar_lookup` finds.
pub record File : Type 0 where
  pub inode : ℕ
  pub content : ℕ
  pub file_len : ℕ

unfoldable pub tar_lookup_from :
    (fuel room ptr inode : ℕ) (filename : List ℕ) → Memory → Run (Outcome File)
unfolding parse_oct starts_with add_slashes pass_slashes
tar_lookup_from zero room ptr inode filename m = fault out_of_fuel
tar_lookup_from (suc fuel) room ptr inode filename m =
    let last = m (ptr + length filename) in
    let rest = pass_slashes room ptr inode m >>= λ n.
    tar_lookup_from fuel room (next_header ptr (file_size ptr m)) (increment n) filename m in
    if is_header ptr m
    then (if starts_with filename ptr m && (last == 0 || last == b'/')
        then ok (
            success (record {
              inode = add_slashes filename inode;
              content = ptr + 512;
              file_len = if last == 0 then file_size ptr m else 0;
            }))
        else rest)
    else ok (failure no_entry)

unfoldable pub tar_lookup :
    (fuel room archive : ℕ) (filename : List ℕ) → Memory → Run (Outcome File)
unfolding tar_lookup_from
tar_lookup fuel room archive filename m =
    if ltb 99 (length filename)
    then ok (failure path_too_long)
    else tar_lookup_from fuel room archive 3 filename m

-- The next "/" or the end.
unfoldable pub segment_end : (room slash_ptr : ℕ) → Memory → Run ℕ
segment_end zero slash_ptr m = fault out_of_fuel
segment_end (suc room) slash_ptr m =
    let rest = segment_end room (slash_ptr + 1) m in
    if m slash_ptr == 0 || m slash_ptr == b'/' then ok slash_ptr else rest

-- The loop over the full name: where the name with the number ends, or the number reached.
pub data Passed : Type 0 where
  found : (slash_ptr : ℕ) → Passed
  passed : (curr_inode : ℕ) → Passed

unfoldable pub pass_name : (room slash_ptr curr_inode inode : ℕ) → Memory → Run Passed
unfolding segment_end
pass_name zero slash_ptr curr_inode inode m = fault out_of_fuel
pass_name (suc room) slash_ptr curr_inode inode m =
    let rest =
      pass_name room (slash_ptr + 1)
        (if m slash_ptr == b'/' then increment curr_inode else curr_inode) inode m in
    let here = segment_end (suc room) slash_ptr m >>= λ p. ok (found p) in
    if m slash_ptr == 0 then ok (passed curr_inode) else if curr_inode == inode then here else rest

-- What `tar_lookup_by_index` finds.
pub record Named : Type 0 where
  pub filename_length : ℕ
  pub content : ℕ
  pub file_len : ℕ

unfoldable pub tar_lookup_by_index_from :
    (fuel room ptr curr_inode inode : ℕ) → Memory → Run (Outcome Named)
unfolding parse_oct starts_with pass_name
tar_lookup_by_index_from zero room ptr curr_inode inode m = fault out_of_fuel
tar_lookup_by_index_from (suc fuel) room ptr curr_inode inode m =
    let name_passed : Passed → Run (Outcome Named) = λ p. elim p [
      | found slash_ptr ↦ ok (
          success (record {
            filename_length = slash_ptr - ptr;
            content = ptr + 512;
            file_len = file_size ptr m;
          }))
      | passed n ↦
          tar_lookup_by_index_from fuel room (next_header ptr (file_size ptr m)) (increment n) inode
            m
    ] in
    if is_header ptr m
    then (pass_name room ptr curr_inode inode m >>= name_passed)
    else ok (failure no_entry)

unfoldable pub tar_lookup_by_index : (fuel room archive inode : ℕ) → Memory → Run (Outcome Named)
unfolding tar_lookup_by_index_from
tar_lookup_by_index fuel room archive inode m =
    if ltb inode 3
    then ok (failure no_entry)
    else tar_lookup_by_index_from fuel room archive 3 inode m
