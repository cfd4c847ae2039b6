-- ===== src/Fs/Vfs/Traversal.antt =====
-- kernel/fs/vfs.cpp: `traverse` from the best mount point on.
use tinylittleos.Common.{
  ℕ, zero, suc, ◌<◌, ◌≤◌, ◌≡◌, ◌≢◌, ap, fun_ext, ◌∙◌, false, ◌==◌, if◌then◌else◌, List, [], ◌∷◌,
  length, none, some, arith,
}
use tinylittleos.Common.Run.{Run, ok, ◌>>=◌}
use tinylittleos.Util.Errno.{Outcome, success}
use tinylittleos.Fs.Vfs.{MountPoint, Inodes, Mounted, best_mount, drop, traverse}
use tinylittleos.Fs.Vfs.Paths.{components, resolve, walk-components}

length-drop : (n : ℕ) (path : List ℕ) → length (drop n path) ≤ length path
unfolding drop
length-drop zero path = omega arith
length-drop (suc n) [] = omega arith
length-drop (suc n) (c ∷ path) = omega (arith, length-drop n path)

-- The state with the inodes of one file system changed.
abbrev pub finish :
    (fs : ℕ) → (state : ℕ → Inodes) → (Outcome ℕ × Inodes) → Run (Outcome ℕ × (ℕ → Inodes))
finish fs state r = ok (r.0, λ b. if b == fs then r.1 else state b)

-- In a path whose best mount point is `m`, of a file system whose root is in memory, and with a step
-- for each byte of the path and one more, `traverse` resolves the components behind the mount point
-- from the root on, and changes the inodes of no other file system.
pub traverse-components :
    (v : Mounted) (steps fuel : ℕ) (path : List ℕ) (state : ℕ → Inodes) (m : MountPoint)
    → best_mount path v.mounts none 0 ≡ some m
    → 0 < length path
    → length path < steps
    → (state m.m_fs).table (v.root_inode m.m_fs) ≢ 0
    → traverse v steps fuel path state ≡ (
        resolve
          (v.driver m.m_fs)
          fuel
          (v.root_inode m.m_fs)
          ((state m.m_fs).table (v.root_inode m.m_fs))
          (components (drop (length m.m_path) path))
          (state m.m_fs)
        >>= finish m.m_fs state)
unfolding traverse
traverse-components v steps fuel path state m best pos enough root =
    let e : (length path == 0) ≡ false = ground arith in
    let r : ((state m.m_fs).table (v.root_inode m.m_fs) == 0) ≡ false = ground arith in
    rw (e, best, r)
      (ap (λ w. w >>= finish m.m_fs state)
        (walk-components (v.driver m.m_fs) steps fuel (v.root_inode m.m_fs)
          ((state m.m_fs).table (v.root_inode m.m_fs)) (drop (length m.m_path) path) (state m.m_fs)
          (omega (arith, length-drop (length m.m_path) path))))

-- For a path without components behind its best mount point, of a file system whose root is in
-- memory, and with a step for each byte of the path and one more, `traverse` gives the root, and
-- takes no reference to it.
pub traverse-root :
    (v : Mounted) (steps fuel : ℕ) (path : List ℕ) (state : ℕ → Inodes) (m : MountPoint)
    → best_mount path v.mounts none 0 ≡ some m
    → 0 < length path
    → length path < steps
    → (state m.m_fs).table (v.root_inode m.m_fs) ≢ 0
    → components (drop (length m.m_path) path) ≡ []
    → traverse v steps fuel path state
      ≡ ok (success ((state m.m_fs).table (v.root_inode m.m_fs)), state)
unfolding resolve
traverse-root v steps fuel path state m best pos enough root no_names =
    let same : (λ b. if b == m.m_fs then state m.m_fs else state b) ≡ state =
      fun_ext λ b. ground (arith, ap state {x = b} {y = m.m_fs}) in
    traverse-components v steps fuel path state m best pos enough root
    ∙ rw no_names (ap (λ s. ok (success ((state m.m_fs).table (v.root_inode m.m_fs)), s)) same)
