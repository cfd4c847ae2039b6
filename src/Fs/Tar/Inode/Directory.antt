-- ===== src/Fs/Tar/Inode/Directory.antt =====
-- kernel/fs/tar.cpp: `lookup` of a name in a directory.
use tinylittleos.Common.{
  ℕ, suc, ◌+◌, ◌-◌, ◌%◌, ◌^◌, ◌<◌, ◌≤◌, ◌≡◌, ◌≢◌, refl, sym, subst, ◌∙◌, true, false, ◌==◌, ltb,
  List, [], ◌∷◌, ◌++◌, length, length-append, some, arith, Bool-cases, inl, inr,
}
use tinylittleos.Common.Run.{ok, Returns, ◌>>=◌}
use tinylittleos.Util.Cstr.{Memory}
use tinylittleos.Util.Errno.{success}
use tinylittleos.Fs.Tar.{next_header, File, Named, tar_lookup}
use tinylittleos.Fs.Tar.Entries.{Holds, Entry, Archive, slashes, numbers}
use tinylittleos.Fs.Tar.Search.{covers, find_name, tar_lookup-Finds}
use tinylittleos.Fs.Tar.Number.{
  IsPath, IsPath-IsText, Agrees, tar_lookup_by_index-tar_lookup, find_name-covers, find_name-skips,
  find_name_from, some_of,
}
use tinylittleos.Fs.Tar.Inode.{
  InodeTar, alloc_inode_struct, read_inode_disk, bytes, cut_trailing, cut_leading, my_file_name,
  inode_lookup, number_of, concat, concat_len, path_name_max,
}

-- A path that does not begin with "/".
abbrev pub IsRelative : List ℕ → Type 0
IsRelative [] = ⊥
IsRelative (c ∷ path) = (c ≢ b'/') × IsPath (c ∷ path)

IsRelative-IsPath : (path : List ℕ) → IsRelative path → IsPath path
IsRelative-IsPath [] p = absurd p
IsRelative-IsPath (c ∷ path) p = p.1

-- The bytes of the path stand at the address.
abbrev Begins : Memory → (ptr : ℕ) → List ℕ → Type 0
Begins m ptr [] = Unit {0}
Begins m ptr (c ∷ path) = (m ptr ≡ c) × Begins m (ptr + 1) path

Holds-Begins :
    (path name : List ℕ) (ptr : ℕ) (m : Memory)
    → covers path name ≡ true
    → Holds m ptr name
    → Begins m ptr path
unfolding covers
Holds-Begins [] name ptr m c h = tt
Holds-Begins (f ∷ path) [] ptr m c h = ground arith
Holds-Begins (f ∷ path) (d ∷ name) ptr m c (e, _, h) =
    (ground arith, Holds-Begins path name (ptr + 1) m (ground arith) h)

-- The header of a file that was found begins with the path.
find_name-Begins :
    (es : List Entry) (path : List ℕ) (room ptr n : ℕ) (m : Memory) {f : File}
    → Archive m ptr room es
    → find_name path es ptr n ≡ some f
    → (512 ≤ f.content) × Begins m (f.content - 512) path
find_name-Begins [] path room ptr n m a h = unfold find_name in ground arith
find_name-Begins (e ∷ es) path room ptr n m {f} (header, holds, short, size, rest) h =
    elim (Bool-cases (covers path e.name)) [
      | inl in_ ↦
          let at : ptr ≡ f.content - 512 = omega (arith, find_name-covers path e es ptr n in_ h) in
          (
            omega (arith, find_name-covers path e es ptr n in_ h),
            subst (λ p. Begins m p path) at (Holds-Begins path e.name ptr m in_ holds),
          )
      | inr out ↦
          find_name-Begins es path room (next_header ptr e.size) (n + slashes e.name + 1) m rest
            (find_name-skips path e es ptr n out h)
    ]

Begins-bytes :
    (path : List ℕ) (ptr : ℕ) (m : Memory) → Begins m ptr path → bytes ptr (length path) m ≡ path
unfolding bytes
Begins-bytes [] ptr m b = refl
Begins-bytes (c ∷ path) ptr m b = ground (arith, Begins-bytes path (ptr + 1) m)

-- The last byte of a path is not "/".
Begins-last :
    (c : ℕ) (path : List ℕ) (ptr : ℕ) (m : Memory)
    → IsPath (c ∷ path)
    → Begins m ptr (c ∷ path)
    → m (ptr + length path) ≢ b'/'
Begins-last c [] ptr m p b = let e : ptr + 0 ≡ ptr = omega arith in rw e (ground arith)
Begins-last c (d ∷ path) ptr m p b =
    let e : ptr + suc (length path) ≡ ptr + 1 + length path = omega arith in
    rw e (Begins-last d path (ptr + 1) m p.1 b.1)

-- Nothing is cut off a relative path.
my_name :
    (path : List ℕ) (ptr : ℕ) (m : Memory)
    → IsRelative path
    → Begins m ptr path
    → cut_leading ptr (cut_trailing ptr (length path) m) m ≡ path
unfolding cut_leading cut_trailing
my_name [] ptr m p b = absurd p
my_name (c ∷ path) ptr m p b =
    ground (arith, Begins-last c path ptr m, Begins-bytes (c ∷ path) ptr m)

-- The path with the name fits into the buffer.
concat_fits :
    (path name : List ℕ)
    → IsRelative path
    → length path + 1 + length name < 400
    → (ltb path_name_max ((concat_len path name + 1) % 2 ^ 32) ≡ false)
      × (ltb path_name_max (length (path ++ b'/' ∷ name) + 1) ≡ false)
      × (concat path name ≡ path ++ b'/' ∷ name)
concat_fits [] name p short = absurd p
concat_fits (c ∷ path) name p short =
    (ground arith, ground (arith, length-append path (b'/' ∷ name)), refl)

-- The node of a file that was found has the path as its name.
module _ (path : List ℕ) (f : File) (r : Named) (m : Memory) where
  abbrev node : InodeTar
  node = record {
    i_num = f.inode;
    m_contents = r.content;
    m_contents_length = r.file_len;
    m_filename_length = r.filename_length;
  }

  my_file_name_lem :
      IsRelative path
      → 3 ≤ f.inode
      → 512 ≤ f.content
      → Begins m (f.content - 512) path
      → Agrees m path f r
      → my_file_name node m ≡ ok path
  unfolding my_file_name
  my_file_name_lem p three header b (len, content, _) =
      let not_root : (f.inode == 2) ≡ false = ground arith in
      let contents : (r.content == 0) ≡ false = ground arith in
      rw (not_root, contents, content, len, my_name path (f.content - 512) m p b)

  inode_lookup_lem :
      (fuel room archive : ℕ) (name : List ℕ)
      → IsRelative path
      → length path + 1 + length name < 400
      → my_file_name node m ≡ ok path
      → inode_lookup fuel room archive node name m
        ≡ (tar_lookup fuel room archive (path ++ b'/' ∷ name) m >>= λ e. ok (number_of e))
  unfolding inode_lookup
  inode_lookup_lem fuel room archive name p short e =
      let (len, room_, text) = concat_fits path name p short in rw (e, len, text, room_)

-- In an archive of some entries with fewer than 2 ^ 32 numbers, let `tar_lookup` find a path of at
-- most 99 bytes, none of them zero, that does not begin or end with "/". Then `read_inode_disk` gives
-- the new inode with the number found the start of the contents that was found, and the path as its
-- name; and `lookup` of a name in it is `tar_lookup` of the path, "/" and the name, if these fit into the
-- buffer.
pub inode_lookup-tar_lookup :
    (es : List Entry) (path name : List ℕ) (fuel room archive : ℕ) (m : Memory) (f : File)
    → (old_length old_filename_length : ℕ) → IsRelative path
    → Archive m archive room es
    → length es < fuel
    → 3 + numbers es < 2 ^ 32
    → length path ≤ 99
    → length path + 1 + length name < 400
    → tar_lookup fuel room archive path m ≡ ok (success f)
    → Returns
        (read_inode_disk fuel room archive
          (alloc_inode_struct f.inode old_length old_filename_length)
          m)
        λ node.
          (node.i_num ≡ f.inode)
          × (node.m_contents ≡ f.content)
          × (my_file_name node m ≡ ok path)
          × (inode_lookup fuel room archive node name m
              ≡ (tar_lookup fuel room archive (path ++ b'/' ∷ name) m >>= λ e. ok (number_of e)))
unfolding read_inode_disk
inode_lookup-tar_lookup es path name fuel room archive m f o1 o2 p a h fits short both found =
    let q = IsRelative-IsPath path p in
    let e =
      sym (tar_lookup-Finds es path fuel room archive m (IsPath-IsText path q) a h fits short)
      ∙ found in
    let eq = some_of (find_name path es archive 3) f e in
    let three = find_name_from es path archive 3 eq in
    let (header, begins) = find_name-Begins es path room archive 3 m a eq in
    let (r, run, agrees) =
      tar_lookup_by_index-tar_lookup es path fuel room archive m f q a h fits short found in
    let mine = my_file_name_lem path f r m p three header begins agrees in
    (
      node path f r m,
      rw run,
      (refl, agrees.1, mine, inode_lookup_lem path f r m fuel room archive name p both mine),
    )
