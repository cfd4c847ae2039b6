-- ===== src/Fs/Tar/Inode/Contents.antt =====
-- kernel/fs/tar.cpp: reading of a file.
use tinylittleos.Common.{
  ℕ, ◌+◌, ◌-◌, ◌%◌, ◌^◌, ◌<◌, ◌≤◌, ◌≡◌, ◌⊎◌, inl, inr, refl, sym, ap, Bool-cases, ◌&&◌, true, false,
  leb, ltb, if◌then◌else◌, min, arith,
}
use tinylittleos.Util.Cstr.{Memory, memcpy}
use tinylittleos.Util.Cstr.Copy.{Copies, memcpy-Copies}
use tinylittleos.Util.Errno.{ℤ, pos, negsuc, to_ssize}
use tinylittleos.Fs.Tar.Inode.{InodeTar, tar_read}

-- The bytes of the file from the position on that there are, at most `count`.
abbrev pub readable : InodeTar → (count at : ℕ) → ℕ
readable i count at = min count (i.m_contents_length - at)

pub tar_read_beyond :
    (i : InodeTar) (buf count at : ℕ) (m : Memory)
    → leb i.m_contents_length at ≡ true
    → tar_read i buf count at m ≡ (pos 0, m)
unfolding tar_read to_ssize
tar_read_beyond i buf count at m h = rw h

tar_read_within :
    (i : InodeTar) (buf count at : ℕ) (m : Memory)
    → i.m_contents_length < 2 ^ 32
    → count < 2 ^ 32
    → at < 2 ^ 64
    → leb i.m_contents_length at ≡ false
    → tar_read i buf count at m
      ≡ (to_ssize (readable i count at), memcpy buf (i.m_contents + at) (readable i count at) m)
unfolding tar_read
tar_read_within i buf count at m h1 h2 h3 h =
    let n =
      if ltb i.m_contents_length ((at + count) % 2 ^ 64) then i.m_contents_length - at else count in
    let e : n ≡ readable i count at = ground arith in
    rw h (ap (λ k. (to_ssize k, memcpy buf (i.m_contents + at) k m)) e)

nothing :
    (i : InodeTar) (buf count at : ℕ) (m : Memory) (x : ℕ)
    → leb i.m_contents_length at ≡ true
    → m x ≡ (
        if leb buf x && ltb x (buf + readable i count at)
        then m (i.m_contents + at + (x - buf))
        else m x)
nothing i buf count at m x h = ground arith

-- What a number of bytes reads as in the type of the result.
abbrev pub returned : ℕ → ℤ
returned n = if ltb n (2 ^ 31) then pos n else negsuc (2 ^ 32 - 1 - n)

to_ssize_lem : (n : ℕ) → n < 2 ^ 32 → to_ssize n ≡ returned n
unfolding to_ssize
to_ssize_lem n h = let e : n % 2 ^ 32 ≡ n = omega arith in rw e refl

-- `tar_read` from a file and a position that fit into their types, into a buffer that does not
-- overlap the file, copies the bytes that are left, at most `count`, and none behind the end. It
-- returns their number if that is below 2 ^ 31, and from there on the number less 2 ^ 32, which is
-- negative and so an error to its callers.
pub tar_read-Copies :
    (i : InodeTar) (buf count at : ℕ) (m : Memory)
    → i.m_contents_length < 2 ^ 32
    → count < 2 ^ 32
    → at < 2 ^ 64
    → (buf + count ≤ i.m_contents) ⊎ (i.m_contents + i.m_contents_length ≤ buf)
    → ((tar_read i buf count at m).0 ≡ returned (readable i count at))
      × Copies buf (i.m_contents + at) (readable i count at) m (tar_read i buf count at m).1
tar_read-Copies i buf count at m h1 h2 h3 apart = elim (Bool-cases (leb i.m_contents_length at)) [
  | inl beyond ↦
      let none_ : readable i count at ≡ 0 = ground arith in
      rw (tar_read_beyond i buf count at m beyond)
        (sym (ap returned none_), λ x. nothing i buf count at m x beyond)
  | inr within ↦ rw (tar_read_within i buf count at m h1 h2 h3 within) (
    to_ssize_lem (readable i count at) (omega arith),
    memcpy-Copies buf (i.m_contents + at) (readable i count at) m (ground arith),
  )
]
