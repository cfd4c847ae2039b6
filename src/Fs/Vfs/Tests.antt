-- ===== src/Fs/Vfs/Tests.antt =====
-- kernel/fs/vfs.cpp with two mounted file systems; the root of each is the inode 2 at the address 100.
use tinylittleos.Common.{
  ℕ, ◌≡◌, ◌≢◌, refl, sym, subst, ap, ◌∙◌, Bool-cases, inl, inr, ◌==◌, ◌⊎◌, if◌then◌else◌, List, [],
  ◌∷◌, length, none, some, arith,
}
use tinylittleos.Common.Run.{ok, Returns, ◌>>=◌}
use tinylittleos.Fs.Vfs.Cached.{Cached, IsChild, find_path, finished, traverse-Cached}
use tinylittleos.Util.Errno.{Errno, Outcome, success, failure, no_entry}
use tinylittleos.Util.Cstr.{Memory}
use tinylittleos.Fs.Vfs.{
  MountPoint, Inodes, Driver, Mounted, new_mount_point, mount, best_mount, release,
  get_inode_struct, traverse, drop,
}
use tinylittleos.Fs.Vfs.Mounts.{Bounded, Longest, best_mount-Longest}
use tinylittleos.Fs.Vfs.Paths.{components, split, resolve}
use tinylittleos.Fs.Vfs.Traversal.{finish, traverse-components, traverse-root}
use tinylittleos.Fs.Vfs.NewInode.{released, release-new_inode}
use tinylittleos.Fs.Vfs.FileDesc.{
  FileDesc, Method, open_file, read, pread, write, pwrite, release_desc, release_desc-open_file,
}

abbrev slash : MountPoint
slash = record { m_path = b'/' ∷ []; m_fs = 1 }

abbrev at_a : MountPoint
at_a = record { m_path = b'/' ∷ b'a' ∷ []; m_fs = 2 }

abbrev mounted : List MountPoint
mounted = slash ∷ at_a ∷ []

-- The name "b" is in each root.
abbrev driver : Driver
driver = record {
  lookup = λ i name.
      if i == 2
      then (if length name == 1 then success 7 else failure no_entry)
      else failure no_entry;
  new_address = λ s. 300;
}

abbrev system : Mounted
system = record { mounts = mounted; driver = λ fs. driver; root_inode = λ fs. 2 }

-- The inode 2 at 100, the inode 7 at 200 with one reference, and memory at 300 that holds a 1.
abbrev inodes : Inodes
inodes = record {
  table = λ n. if n == 2 then 100 else if n == 7 then 200 else 0;
  i_num = λ a. if a == 100 then 2 else if a == 200 then 7 else 0;
  i_rc = λ a. 1;
  i_parent_ref = λ a. if a == 200 then 100 else 0;
}

abbrev a_b : List ℕ
a_b = b'/' ∷ b'a' ∷ b'/' ∷ b'b' ∷ []

best_mount-Longest_example :
    ((best_mount a_b mounted none 0 ≡ none) × Bounded a_b 0 mounted)
    ⊎ ((m : MountPoint) × (best_mount a_b mounted none 0 ≡ some m) × Longest a_b mounted 0 m)
best_mount-Longest_example = best_mount-Longest a_b mounted

best_of_a_b : best_mount a_b mounted none 0 ≡ some at_a
unfolding best_mount
best_of_a_b = refl

mounts_made :
    (new_mount_point (b'/' ∷ []) 1 >>= λ m. mount (b'/' ∷ b'a' ∷ []) 2 (m ∷ [])) ≡ ok mounted
unfolding new_mount_point mount
mounts_made = refl

traverse-components_example :
    traverse system 5 2 a_b (λ fs. inodes)
    ≡ (resolve driver 2 2 100 (components (drop 2 a_b)) inodes >>= finish 2 (λ fs. inodes))
traverse-components_example =
    traverse-components system 5 2 a_b (λ fs. inodes) at_a best_of_a_b (omega arith) (omega arith)
      (λ e. absurd (omega arith))

-- The inode 7 is found, with one more reference.
found :
    Returns
      (traverse system 5 2 a_b (λ fs. inodes))
      λ r. (r.0 ≡ success 200) × ((r.1 2).i_rc 200 ≡ 2)
unfolding traverse
found = (_, refl, (refl, refl))

abbrev a_slash : List ℕ
a_slash = b'/' ∷ b'a' ∷ b'/' ∷ []

traverse-root_example : traverse system 4 2 a_slash (λ fs. inodes) ≡ ok (success 100, λ fs. inodes)
traverse-root_example =
    traverse-root system 4 2 a_slash (λ fs. inodes) at_a (unfold best_mount in refl) (omega arith)
      (omega arith) (λ e. absurd (omega arith)) (unfold drop split in refl)

release-new_inode_example :
    (get_inode_struct driver 8 100 inodes >>= λ r. release 2 r.0 r.1) ≡ released 300 8 100 inodes 1
release-new_inode_example =
    release-new_inode driver 0 8 100 inodes refl (λ e. absurd (omega arith))
      (λ e. absurd (omega arith)) (omega arith) (omega arith)

release_desc-open_file_example :
    (open_file 200 inodes >>= λ r. release_desc 1 r.0 r.1)
    ≡ ok (record { rc = 0; owner_inode = 200; f_mode = 0; f_pos = 0 }, inodes)
release_desc-open_file_example = release_desc-open_file 0 200 inodes (omega arith) (omega arith)

abbrev four : Method
four f buf count pos m = (success 4, m)

abbrev opened : FileDesc
opened = record { rc = 1; owner_inode = 200; f_mode = 0; f_pos = 3 }

-- `read` moves the position, the other methods do not.
positions :
    (m : Memory)
    → ((read four 0 4 opened m).1.0.f_pos ≡ 7)
      × ((write four 0 4 opened m).0 ≡ success 4)
      × ((pread four 0 4 1 opened m).0 ≡ success 4)
      × ((pwrite four 0 4 1 opened m).0 ≡ success 4)
unfolding read pread write pwrite
positions m = (refl, refl, refl, refl)

abbrev IsInMemory : ℕ → Type 0
IsInMemory a = (a ≡ 100) ⊎ (a ≡ 200)

found_or : ℕ → Outcome ℕ → ℕ
found_or d (success n) = n
found_or d (failure e) = d

failure-ne-success : (e : Errno) (n : ℕ) → failure e ≢ success n
failure-ne-success e n p = cc p

lookups :
    (i found : ℕ) (name : List ℕ) → driver.lookup i name ≡ success found → (i ≡ 2) × (found ≡ 7)
unfolding found_or
lookups i found name e = elim (Bool-cases (i == 2)) [
  | inl two ↦ elim (Bool-cases (length name == 1)) [
    | inl one ↦
        let is : driver.lookup i name ≡ success 7 = rw (two, one) refl in
        (ground arith, ap (found_or 7) (sym e ∙ is))
    | inr long ↦
        let is : driver.lookup i name ≡ failure no_entry = rw (two, long) refl in
        absurd (failure-ne-success no_entry found (sym is ∙ e))
  ]
  | inr other ↦
      let is : driver.lookup i name ≡ failure no_entry = rw other refl in
      absurd (failure-ne-success no_entry found (sym is ∙ e))
]

inodes-IsChild :
    (a found : ℕ)
    → IsInMemory a
    → inodes.i_num a ≡ 2
    → found ≡ 7
    → IsChild IsInMemory 2 inodes a found
inodes-IsChild a found (inr p) two seven =
    let e : 7 ≡ inodes.i_num 200 = refl in absurd (omega (arith, e ∙ sym (ap inodes.i_num p) ∙ two))
inodes-IsChild a found (inl p) two seven =
    subst (λ n. IsChild IsInMemory 2 inodes a n) (sym seven)
      (record {
        member = inr refl;
        known = λ e. absurd (omega arith);
        numbered = refl;
        apart = λ e. absurd (omega arith);
        below = λ e. absurd (omega arith);
      })

inodes-Cached : Cached driver 2 inodes IsInMemory
inodes-Cached = record {
  closed = λ a found name p e.
      inodes-IsChild a found p (lookups (inodes.i_num a) found name e).0
        (lookups (inodes.i_num a) found name e).1;
  held = λ a p. omega arith;
  countable = λ a p. omega arith;
}

traverse-Cached_example :
    traverse system 5 2 a_b (λ fs. inodes)
    ≡ finish 2
        (λ fs. inodes)
        (finished 2 inodes (find_path driver inodes 100 (components (drop 2 a_b))))
traverse-Cached_example =
    traverse-Cached system 5 1 a_b (λ fs. inodes) at_a IsInMemory best_of_a_b (omega arith)
      (omega arith) (λ e. absurd (omega arith)) refl (inl refl) inodes-Cached
