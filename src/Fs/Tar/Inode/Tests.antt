-- ===== src/Fs/Tar/Inode/Tests.antt =====
-- kernel/fs/tar.cpp: `lookup` in the directory of the small archive, and reading of its file.
use tinylittleos.Common.{◌≡◌, refl, ◌∷◌, [], ◌++◌, inr, arith}
use tinylittleos.Common.Run.{ok, Returns, ◌>>=◌}
use tinylittleos.Util.Errno.{success, pos, negsuc}
use tinylittleos.Util.Cstr.Copy.{Copies}
use tinylittleos.Fs.Tar.{File, tar_lookup}
use tinylittleos.Fs.Tar.Entries.{numbers}
use tinylittleos.Fs.Tar.Tests.{tape, entries, tape-Archive}
use tinylittleos.Fs.Tar.Inode.{
  InodeTar, alloc_inode_struct, read_inode_disk, my_file_name, inode_lookup, number_of, tar_read,
}
use tinylittleos.Fs.Tar.Inode.Directory.{inode_lookup-tar_lookup}
use tinylittleos.Fs.Tar.Inode.Contents.{tar_read-Copies}

abbrev directory_file : File
directory_file = record { inode = 3; content = 512; file_len = 0 }

directory-found : tar_lookup 3 8 0 (b'd' ∷ []) tape ≡ ok (success directory_file)
unfolding tar_lookup
directory-found = refl

inode_lookup-tar_lookup_example :
    Returns (read_inode_disk 3 8 0 (alloc_inode_struct 3 7 7) tape) λ node.
      (node.i_num ≡ 3)
      × (node.m_contents ≡ 512)
      × (my_file_name node tape ≡ ok (b'd' ∷ []))
      × (inode_lookup 3 8 0 node (b'a' ∷ []) tape
          ≡ (tar_lookup 3 8 0 ((b'd' ∷ []) ++ b'/' ∷ b'a' ∷ []) tape >>= λ e. ok (number_of e)))
inode_lookup-tar_lookup_example =
    inode_lookup-tar_lookup entries (b'd' ∷ []) (b'a' ∷ []) 3 8 0 tape directory_file 7 7
      (omega arith) tape-Archive (omega arith) (unfold numbers in ground arith) (omega arith)
      (omega arith) directory-found

abbrev file_node : InodeTar
file_node = record { i_num = 6; m_contents = 1024; m_contents_length = 3; m_filename_length = 3 }

tar_read-Copies_example :
    ((tar_read file_node 4096 8 1 tape).0 ≡ pos 2)
    × Copies 4096 1025 2 tape (tar_read file_node 4096 8 1 tape).1
tar_read-Copies_example =
    tar_read-Copies file_node 4096 8 1 tape (omega arith) (omega arith) (omega arith)
      (inr (omega arith))

-- 2 ^ 32 - 1 bytes read as -1.
abbrev large_node : InodeTar
large_node = record file_node { m_contents_length = 0xFFFFFFFF }

large : (tar_read large_node 0x200000000 0xFFFFFFFF 0 tape).0 ≡ negsuc 0
large =
    (tar_read-Copies large_node 0x200000000 0xFFFFFFFF 0 tape (omega arith) (omega arith)
      (omega arith) (inr (omega arith))).0
