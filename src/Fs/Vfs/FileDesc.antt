-- ===== src/Fs/Vfs/FileDesc.antt =====
-- kernel/fs/vfs.cpp: open file descriptions. `f_read` and `f_write` are the methods that the inode
-- sets; a read may change memory.
use tinylittleos.Common.{ℕ, suc, ◌+◌, ◌%◌, ◌<◌, ◌≡◌, ◌^◌, refl, if◌then◌else◌}
use tinylittleos.Common.Run.{Run, ok, ◌>>=◌}
use tinylittleos.Util.Cstr.{Memory}
use tinylittleos.Util.Errno.{Outcome, success, failure}
use tinylittleos.Ds.Refcount.{new_rc, release_ref}
use tinylittleos.Fs.Vfs.{Inodes, take_ref_locked, release}
use tinylittleos.Fs.Vfs.References.{take_ref_locked_lem, release-taken}

pub record FileDesc : Type 0 where
  pub rc : ℕ
  pub owner_inode : ℕ
  pub f_mode : ℕ
  pub f_pos : ℕ

-- `f_read` and `f_write` of a description, with the buffer, the count and the position.
abbrev pub Method : Type 0
Method = FileDesc → (buf count pos : ℕ) → Memory → Outcome ℕ × Memory

-- The constructor takes a reference to the inode.
unfoldable pub new_file_desc : (owner : ℕ) → Inodes → Run (FileDesc × Inodes)
unfolding take_ref_locked
new_file_desc owner s = do
  s1 ← take_ref_locked owner s
  let r : FileDesc × Inodes =
      (record { rc = new_rc; owner_inode = owner; f_mode = 0; f_pos = 0 }, s1)
  ok r

-- `open` of an inode.
unfoldable pub open_file : (inode : ℕ) → Inodes → Run (FileDesc × Inodes)
unfolding new_file_desc
open_file inode s = new_file_desc inode s

unfoldable pub read : Method → (buf count : ℕ) → FileDesc → Memory → Outcome ℕ × (FileDesc × Memory)
read f_read buf count f m =
    let (res, m') = f_read f buf count f.f_pos m in
    let f' = elim res as (λ _. FileDesc) [
      | failure e ↦ f
      | success n ↦ record f { f_pos = (f.f_pos + n) % 2 ^ 64 }
    ] in
    (res, (f', m'))

unfoldable pub pread : Method → (buf count pos : ℕ) → FileDesc → Memory → Outcome ℕ × Memory
pread f_read buf count pos f m = f_read f buf count pos m

unfoldable pub write : Method → (buf count : ℕ) → FileDesc → Memory → Outcome ℕ × Memory
write f_write buf count f m = f_write f buf count f.f_pos m

unfoldable pub pwrite : Method → (buf count pos : ℕ) → FileDesc → Memory → Outcome ℕ × Memory
pwrite f_write buf count pos f m = f_write f buf count pos m

-- `release` of a description; the last one releases the inode.
unfoldable pub release_desc : (fuel : ℕ) → FileDesc → Inodes → Run (FileDesc × Inodes)
unfolding release release_ref
release_desc fuel f s = do
  r ← release_ref f.rc
  let f' = record f { rc = r.0 }
  s' ← if r.1 then release fuel f.owner_inode s else ok s
  let result : FileDesc × Inodes = (f', s')
  ok result

-- `release` of a description that was just opened gives the inodes back as they were.
pub release_desc-open_file :
    (fuel inode : ℕ) (s : Inodes)
    → 0 < s.i_rc inode
    → s.i_rc inode + 1 < 2 ^ 31
    → (open_file inode s >>= λ r. release_desc (suc fuel) r.0 r.1)
      ≡ ok (record { rc = 0; owner_inode = inode; f_mode = 0; f_pos = 0 }, s)
unfolding open_file new_file_desc release_desc release_ref
release_desc-open_file fuel inode s pos small =
    rw (take_ref_locked_lem inode s pos small, release-taken fuel inode s pos) refl
