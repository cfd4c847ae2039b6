-- ===== src/Fs/Tar/Inode.antt =====
-- kernel/fs/tar.cpp: the inodes of a tar file system, their `lookup`, and reading of a file.
pub mod Directory
pub mod Contents
mod Tests
use tinylittleos.Common.{
  ℕ, zero, suc, ◌+◌, ◌-◌, ◌%◌, ◌^◌, Bool, true, false, not, ◌&&◌, ◌==◌, ltb, leb, if◌then◌else◌,
  List, [], ◌∷◌, ◌++◌, length,
}
use tinylittleos.Common.Run.{Run, ok, fault, out_of_bounds, kassert, ◌>>=◌, ◌>>◌}
use tinylittleos.Util.Cstr.{Memory, memcpy}
use tinylittleos.Util.Errno.{Outcome, success, failure, path_too_long, ℤ, to_ssize}
use tinylittleos.Fs.Tar.{File, Named, tar_lookup, tar_lookup_by_index}

-- 0 stands for `nullptr`.
pub record InodeTar : Type 0 where
  pub i_num : ℕ
  pub m_contents : ℕ
  pub m_contents_length : ℕ
  pub m_filename_length : ℕ

-- The constructor leaves the lengths as the memory had them.
abbrev pub alloc_inode_struct : (i_num old_length old_filename_length : ℕ) → InodeTar
alloc_inode_struct i_num old_length old_filename_length = record {
  i_num = i_num;
  m_contents = 0;
  m_contents_length = old_length;
  m_filename_length = old_filename_length;
}

-- The error of `tar_lookup_by_index` is ignored.
abbrev store_named : InodeTar → Outcome Named → InodeTar
store_named node (failure e) = node
store_named node (success r) = record node {
  m_contents = r.content;
  m_contents_length = r.file_len;
  m_filename_length = r.filename_length;
}

unfoldable pub read_inode_disk : (fuel room archive : ℕ) → InodeTar → Memory → Run InodeTar
unfolding tar_lookup_by_index
read_inode_disk fuel room archive node m = do
  r ← tar_lookup_by_index fuel room archive node.i_num m
  ok (store_named node r)

-- The bytes of a `string_buf`.
unfoldable pub bytes : (ptr length : ℕ) → Memory → List ℕ
bytes ptr zero m = []
bytes ptr (suc length) m = m ptr ∷ bytes (ptr + 1) length m

-- The length without the "/" at the end, and the bytes without those at the start.
unfoldable pub cut_trailing : (ptr length : ℕ) → Memory → ℕ
cut_trailing ptr zero m = 0
cut_trailing ptr (suc length) m =
    let rest = cut_trailing ptr length m in if m (ptr + length) == b'/' then rest else suc length

unfoldable pub cut_leading : (ptr length : ℕ) → Memory → List ℕ
unfolding bytes
cut_leading ptr zero m = []
cut_leading ptr (suc length) m =
    let rest = cut_leading (ptr + 1) length m in
    if m ptr == b'/' then rest else bytes ptr (suc length) m

unfoldable pub my_file_name : InodeTar → Memory → Run (List ℕ)
unfolding cut_trailing cut_leading
my_file_name node m =
    let own = do
      kassert (not (node.m_contents == 0))
      let my_header = node.m_contents - 512
      ok (cut_leading my_header (cut_trailing my_header node.m_filename_length m) m)
    in if node.i_num == 2 then ok [] else own

abbrev pub number_of : Outcome File → Outcome ℕ
number_of (failure e) = failure e
number_of (success f) = success f.inode

-- The path in the buffer, and its length as the 32-bit sum that is tested.
abbrev pub concat : (mine name : List ℕ) → List ℕ
concat [] name = name
concat (c ∷ mine) name = (c ∷ mine) ++ b'/' ∷ name

abbrev pub concat_len : (mine name : List ℕ) → ℕ
concat_len [] name = (1 + length name + (2 ^ 32 - 1)) % 2 ^ 32
concat_len (c ∷ mine) name = (length (c ∷ mine) + 1 + length name) % 2 ^ 32

abbrev pub path_name_max : ℕ
path_name_max = 400

-- `inode_tar::lookup`
unfoldable pub inode_lookup :
    (fuel room archive : ℕ) → InodeTar → (name : List ℕ) → Memory → Run (Outcome ℕ)
unfolding my_file_name tar_lookup
inode_lookup fuel room archive node name m = do
  mine ← my_file_name node m
  let path = concat mine name
  let search = (tar_lookup fuel room archive path m >>= λ e. ok (number_of e))
  let fill = if ltb path_name_max (length path + 1) then fault out_of_bounds else search
  if ltb path_name_max ((concat_len mine name + 1) % 2 ^ 32)
      then ok (failure path_too_long)
      else fill

-- `tar_read`, with the position in 64 bits and the result in 32.
unfoldable pub tar_read : InodeTar → (buf count pos : ℕ) → Memory → ℤ × Memory
unfolding memcpy to_ssize
tar_read i buf count pos m =
    let n =
      if ltb i.m_contents_length ((pos + count) % 2 ^ 64)
      then i.m_contents_length - pos
      else count in
    if leb i.m_contents_length pos
    then (to_ssize 0, m)
    else (to_ssize n, memcpy buf (i.m_contents + pos) n m)
