-- ===== src/Fs/Vfs.antt =====
-- kernel/fs/vfs.cpp: mounts, inodes with their reference counts, the traversal of a path and file
-- descriptions. An inode is its address, 0 for `nullptr`; the hash table of a file system is the map
-- from numbers to inodes. The methods of an implementor are parameters: `lookup`, and the address
-- of a new inode. The ring of mount points is their list from `first_mount_point` on.
pub mod Mounts
pub mod Paths
pub mod References
pub mod NewInode
pub mod FileDesc
pub mod Traversal
pub mod Counts
pub mod Cached
mod Tests
use tinylittleos.Common.{
  ℕ, zero, suc, ◌+◌, ◌-◌, ◌<◌, ◌≤◌, ◌^◌, Bool, true, false, not, ◌&&◌, ◌||◌, ◌==◌, ltb, leb,
  if◌then◌else◌, List, [], ◌∷◌, length, get_or, Option, none, some,
}
use tinylittleos.Common.Run.{Run, ok, fault, out_of_fuel, undefined, kassert, ◌>>=◌, ◌>>◌}
use tinylittleos.Util.Errno.{Outcome, success, failure, no_entry}

pub record MountPoint : Type 0 where
  pub m_path : List ℕ
  pub m_fs : ℕ

-- The constructor of `mount_point`.
unfoldable pub new_mount_point : (path : List ℕ) (fs : ℕ) → Run MountPoint
unfolding get_or
new_mount_point path fs = do
  kassert (ltb (length path) 400)
  kassert (not (length path == 0))
  kassert (length path == 1 || not (get_or path (length path - 1) 0 == b'/'))
  ok (record { m_path = path; m_fs = fs })

-- The end of `mount`: the new mount point comes right behind the first one.
unfoldable pub mount : (path : List ℕ) (fs : ℕ) → List MountPoint → Run (List MountPoint)
unfolding new_mount_point
mount path fs [] = do m ← new_mount_point path fs; ok (m ∷ [])
mount path fs (first ∷ mounts) = do m ← new_mount_point path fs; ok (first ∷ m ∷ mounts)

-- The loop that compares the first `left` bytes.
unfoldable pub same_bytes : (left : ℕ) → List ℕ → List ℕ → Bool
same_bytes (suc left) (a ∷ xs) (b ∷ ys) = a == b && same_bytes left xs ys
same_bytes zero xs ys = true
same_bytes left xs ys = false

-- The tests that leave a mount point out.
unfoldable pub skipped : (path : List ℕ) → MountPoint → (best_length : ℕ) → Bool
unfolding same_bytes get_or
skipped path m best_length =
    let n = length m.m_path in
    leb n best_length
    || (ltb (length path) n
        || (not (n == 1 || (length path == n || get_or path n 0 == b'/'))
            || not (same_bytes n m.m_path path)))

-- The loop over the mount points, with the best one so far.
unfoldable pub best_mount :
    (path : List ℕ) → List MountPoint → Option MountPoint → (best_length : ℕ) → Option MountPoint
unfolding skipped
best_mount path [] best best_length = best
best_mount path (m ∷ mounts) best best_length =
    let skip = skipped path m best_length in
    best_mount path mounts (if skip then best else some m)
      (if skip then best_length else length m.m_path)

pub record Inodes : Type 0 where
  pub table : ℕ → ℕ
  pub i_num : ℕ → ℕ
  pub i_rc : ℕ → ℕ
  pub i_parent_ref : ℕ → ℕ

abbrev pub update : ℕ → ℕ → (ℕ → ℕ) → ℕ → ℕ
update a v f b = if b == a then v else f b

-- `take_ref_locked` and `release_ref_locked`, on counts of type `int32_t`.
unfoldable pub take_ref_locked : (inode : ℕ) → Inodes → Run Inodes
take_ref_locked inode s = do
  kassert (ltb 0 (s.i_rc inode))
  if s.i_rc inode + 1 == 2 ^ 31
      then fault undefined
      else ok (record s { i_rc = update inode (s.i_rc inode + 1) s.i_rc })

unfoldable pub release_ref_locked : (inode : ℕ) → Inodes → Run (Bool × Inodes)
release_ref_locked inode s = do
  kassert (ltb 0 (s.i_rc inode))
  ok (s.i_rc inode - 1 == 0, record s { i_rc = update inode (s.i_rc inode - 1) s.i_rc })

-- `release`: the last reference takes the inode out of the table, and its destructor releases the
-- parent. The fuel counts the parents.
unfoldable pub release : (fuel inode : ℕ) → Inodes → Run Inodes
unfolding release_ref_locked
release zero inode s = fault out_of_fuel
release (suc fuel) inode s =
    let freed = λ (s1 : Inodes).
      let s2 = record s1 { table = update (s1.i_num inode) 0 s1.table } in
      let parent = release fuel (s1.i_parent_ref inode) s2 in
      if s1.i_parent_ref inode == 0 then ok s2 else parent in
    release_ref_locked inode s >>= λ r. if r.0 then freed r.1 else ok r.1

-- `alloc_inode_struct` and `insert` of a new inode at an address: its constructor takes a reference
-- to the parent. The constructor does not write `i_rc`.
unfoldable pub new_inode : (inode i_num parent : ℕ) → Inodes → Run Inodes
unfolding take_ref_locked
new_inode inode i_num parent s = do
  let s1 = record s { i_parent_ref = update inode parent s.i_parent_ref }
  s2 ← if parent == 0 then ok s1 else take_ref_locked parent s1
  ok (record s2 { i_num = update inode i_num s2.i_num; table = update i_num inode s2.table })

-- What a file system implements: `lookup` in the inode of a number, and the address of the next
-- new inode.
pub record Driver : Type 0 where
  pub lookup : (i_num : ℕ) → (name : List ℕ) → Outcome ℕ
  pub new_address : Inodes → ℕ

unfoldable pub get_inode_struct : Driver → (i_num parent : ℕ) → Inodes → Run (ℕ × Inodes)
unfolding new_inode take_ref_locked
get_inode_struct fs i_num parent s =
    let result = s.table i_num in
    let known = do
      kassert (i_num == s.i_num result)
      s1 ← take_ref_locked result s
      let r : ℕ × Inodes = (result, s1)
      ok r
    in let fresh = do
      s1 ← new_inode (fs.new_address s) i_num parent s
      let r : ℕ × Inodes = (fs.new_address s, s1)
      ok r
      in if result == 0 then fresh else known

-- The text up to the next "/", and behind it.
unfoldable pub until_slash : List ℕ → List ℕ
until_slash [] = []
until_slash (c ∷ path) = if c == b'/' then [] else c ∷ until_slash path

unfoldable pub from_slash : List ℕ → List ℕ
from_slash [] = []
from_slash (c ∷ path) = if c == b'/' then c ∷ path else from_slash path

-- An inode is released unless it is the root.
abbrev pub release_inner : (fuel root_inode_num inode : ℕ) → Inodes → Run Inodes
release_inner fuel root inode s = if s.i_num inode == root then ok s else release fuel inode s

-- The end of one component: the next inode with a reference, or the error; the current inode is
-- released.
unfoldable pub after_lookup :
    Driver
    → (fuel root_inode_num curr : ℕ) → (found : Outcome ℕ) → Inodes
    → Run (Outcome ℕ × Inodes)
unfolding get_inode_struct release
after_lookup fs fuel root curr (failure e) s = do
  s1 ← release_inner fuel root curr s
  let r : Outcome ℕ × Inodes = (failure e, s1)
  ok r
after_lookup fs fuel root curr (success found_i) s = do
  g ← get_inode_struct fs found_i curr s
  s2 ← release_inner fuel root curr g.1
  let r : Outcome ℕ × Inodes = (success g.0, s2)
  ok r

-- One component of a path.
unfoldable pub step_into :
    Driver → (fuel root_inode_num curr : ℕ) → (name : List ℕ) → Inodes → Run (Outcome ℕ × Inodes)
unfolding after_lookup
step_into fs fuel root curr name s =
    after_lookup fs fuel root curr (fs.lookup (s.i_num curr) name) s

-- The loop of `traverse` over the rest of the path.
unfoldable pub walk :
    Driver
    → (steps fuel root_inode_num curr : ℕ) → (path : List ℕ) → Inodes
    → Run (Outcome ℕ × Inodes)
unfolding step_into until_slash from_slash
walk fs zero fuel root curr path s = fault out_of_fuel
walk fs (suc steps) fuel root curr [] s = ok (success curr, s)
walk fs (suc steps) fuel root curr (c ∷ path) s =
    let next = λ (r : Outcome ℕ × Inodes).
      let rest : Run (Outcome ℕ × Inodes) = elim r.0 [
        | failure e ↦ ok r
        | success inode ↦ walk fs steps fuel root inode (from_slash (c ∷ path)) r.1
      ] in
      rest in
    let enter = step_into fs fuel root curr (until_slash (c ∷ path)) s >>= next in
    let skip = walk fs steps fuel root curr path s in if c == b'/' then skip else enter

-- What `traverse` and the open functions know of the mounted file systems.
pub record Mounted : Type 0 where
  pub mounts : List MountPoint
  pub driver : ℕ → Driver
  pub root_inode : ℕ → ℕ

unfoldable pub drop : (n : ℕ) → List ℕ → List ℕ
drop zero path = path
drop (suc n) [] = []
drop (suc n) (c ∷ path) = drop n path

-- The inode found, of the file system of the best mount.
unfoldable pub traverse :
    Mounted → (steps fuel : ℕ) → (path : List ℕ) → (ℕ → Inodes) → Run (Outcome ℕ × (ℕ → Inodes))
unfolding best_mount walk drop
traverse v steps fuel path state =
    let nowhere : Outcome ℕ × (ℕ → Inodes) = (failure no_entry, state) in
    let from_mount = λ (m : MountPoint).
      let s = state m.m_fs in
      let root = v.root_inode m.m_fs in
      let finish = λ (r : Outcome ℕ × Inodes).
        let done : Outcome ℕ × (ℕ → Inodes) = (r.0, λ fs. if fs == m.m_fs then r.1 else state fs) in
        ok done in
      do
        kassert (not (s.table root == 0))
        r ← walk (v.driver m.m_fs) steps fuel root (s.table root) (drop (length m.m_path) path) s
        finish r
    in let search : Run (Outcome ℕ × (ℕ → Inodes)) = elim (best_mount path v.mounts none 0) [
      | none ↦ ok nowhere
      | some m ↦ from_mount m
    ] in
      if length path == 0 then ok nowhere else search
