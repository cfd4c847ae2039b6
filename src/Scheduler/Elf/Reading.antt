-- ===== src/Scheduler/Elf/Reading.antt =====
-- kernel/scheduler/elf.cpp: the loops that read from a file of the tar file system.
use tinylittleos.Common.{
  ℕ, zero, suc, ◌+◌, ◌-◌, ◌^◌, ◌<◌, ◌≤◌, ◌≡◌, ◌⊎◌, inl, inr, refl, ap, ◌∙◌, Bool-cases, true, false,
  ◌&&◌, ◌==◌, leb, ltb, if◌then◌else◌, arith,
}
use tinylittleos.Common.Run.{ok, Returns}
use tinylittleos.Util.Cstr.{Memory}
use tinylittleos.Util.Cstr.Copy.{Copies}
use tinylittleos.Util.Errno.{success, failure, invalid, ℤ, outcome_of}
use tinylittleos.Util.Errno
use tinylittleos.Fs.Tar.Inode.{InodeTar, tar_read}
use tinylittleos.Fs.Tar.Inode.Contents.{readable, tar_read_beyond, tar_read-Copies}
use tinylittleos.Scheduler.Elf.{Pread, read_whole}

-- `pread` of a file in a tar archive.
abbrev pub tar_pread : InodeTar → Pread
tar_pread i buf count pos m = let (n, m') = tar_read i buf count pos m in (outcome_of n, m')

-- A file whose contents and positions are in range.
pub record IsFile (i : InodeTar) (file_pos size : ℕ) : Type 0 where
  pub length_fits : i.m_contents_length < 2 ^ 32
  pub pos_fits : file_pos < 2 ^ 32
  pub size_fits : size < 2 ^ 31

module _ (fuel : ℕ) (pread : Pread) (buf size file_pos pos : ℕ) (m : Memory) where
  read-done : size ≤ pos → read_whole (suc fuel) pread buf size file_pos pos m ≡ ok (success m)
  unfolding read_whole
  read-done h = let e : ltb pos size ≡ false = ground arith in rw e

  read-step :
      (n : ℕ) (m' : Memory)
      → pread (buf + pos) (size - pos) (file_pos + pos) m ≡ (success n, m')
      → pos < size
      → 0 < n
      → read_whole (suc fuel) pread buf size file_pos pos m
        ≡ read_whole fuel pread buf size file_pos (pos + n) m'
  unfolding read_whole
  read-step n m' e h nz =
      let e1 : ltb pos size ≡ true = ground arith in
      let e2 : (n == 0) ≡ false = ground arith in
      rw (e1, e, e2) (ap (λ r. read_whole fuel pread buf size file_pos (pos + n) r.1) e)

  pub read-end :
      (m' : Memory)
      → pread (buf + pos) (size - pos) (file_pos + pos) m ≡ (success 0, m')
      → pos < size
      → read_whole (suc fuel) pread buf size file_pos pos m ≡ ok (failure invalid)
  unfolding read_whole
  read-end m' e h = let e1 : ltb pos size ≡ true = ground arith in rw (e1, e)

module _ (i : InodeTar) (buf size file_pos : ℕ) (f : IsFile i file_pos size)
    (apart : (buf + size ≤ i.m_contents) ⊎ (i.m_contents + i.m_contents_length ≤ buf)) where
  copies :
      (m : Memory)
      → ((tar_read i buf size file_pos m).0 ≡ Errno.pos (readable i size file_pos))
        × Copies buf
            (i.m_contents + file_pos)
            (readable i size file_pos)
            m
            (tar_read i buf size file_pos m).1
  copies m =
      let (n, c) =
        tar_read-Copies i buf size file_pos m f.length_fits (omega (arith, f.size_fits))
          (omega (arith, f.pos_fits)) apart in
      let small : ltb (readable i size file_pos) (2 ^ 31) ≡ true = ground (arith, f.size_fits) in
      (n ∙ rw small refl, c)

  tar-all :
      (m : Memory)
      → file_pos + size ≤ i.m_contents_length
      → tar_pread i (buf + 0) (size - 0) (file_pos + 0) m
        ≡ (success size, (tar_read i buf size file_pos m).1)
  tar-all m fits =
      let e1 : buf + 0 ≡ buf = omega arith in
      let e2 : size - 0 ≡ size = omega arith in
      let e3 : file_pos + 0 ≡ file_pos = omega arith in
      let n : (tar_read i buf size file_pos m).0 ≡ Errno.pos size =
        (copies m).0 ∙ ap Errno.pos (ground arith) in
      rw (e1, e2, e3, n)

  -- All bytes that are there are read at once.
  pub read_whole-Copies :
      (fuel : ℕ) (m : Memory)
      → 2 ≤ fuel
      → file_pos + size ≤ i.m_contents_length
      → Returns
          (read_whole fuel (tar_pread i) buf size file_pos 0 m)
          λ r. (m' : Memory) × (r ≡ success m') × Copies buf (i.m_contents + file_pos) size m m'
  read_whole-Copies zero m lt fits = absurd (omega arith)
  read_whole-Copies (suc zero) m lt fits = absurd (omega arith)
  read_whole-Copies (suc (suc fuel)) m lt fits = elim (Bool-cases (ltb 0 size)) [
    | inl some_ ↦
        let m' = (tar_read i buf size file_pos m).1 in
        let all : readable i size file_pos ≡ size = ground arith in
        (
          success m',
          read-step (suc fuel) (tar_pread i) buf size file_pos 0 m size m' (tar-all m fits)
                (ground arith) (ground arith)
              ∙ read-done fuel (tar_pread i) buf size file_pos (0 + size) m' (omega arith),
          (
            m',
            refl,
            λ x.
                (copies m).1 x
                ∙ ap
                    (λ n.
                      if leb buf x && ltb x (buf + n)
                      then m (i.m_contents + file_pos + (x - buf))
                      else m x)
                    all,
          ),
        )
    | inr none_ ↦ (
      success m,
      read-done (suc fuel) (tar_pread i) buf size file_pos 0 m (ground arith),
      (m, refl, λ x. ground arith),
    )
  ]

  tar-first :
      (m : Memory)
      → tar_pread i (buf + 0) (size - 0) (file_pos + 0) m
        ≡ (success (readable i size file_pos), (tar_read i buf size file_pos m).1)
  tar-first m =
      let e1 : buf + 0 ≡ buf = omega arith in
      let e2 : size - 0 ≡ size = omega arith in
      let e3 : file_pos + 0 ≡ file_pos = omega arith in rw (e1, e2, e3, (copies m).0)

le→leb : (a b : ℕ) → a ≤ b → leb a b ≡ true
le→leb a b h = ground arith

-- Behind the end of the file nothing is read.
tar-beyond :
    (i : InodeTar) (buf count pos : ℕ) (m : Memory)
    → i.m_contents_length ≤ pos
    → tar_pread i buf count pos m ≡ (success 0, m)
tar-beyond i buf count pos m h = rw (tar_read_beyond i buf count pos m (le→leb _ _ h))

module _ (i : InodeTar) (buf size file_pos : ℕ) (f : IsFile i file_pos size)
    (apart : (buf + size ≤ i.m_contents) ⊎ (i.m_contents + i.m_contents_length ≤ buf)) where
  -- A file that is too short is invalid.
  pub read_whole-short :
      (fuel : ℕ) (m : Memory)
      → 2 ≤ fuel
      → 0 < size
      → i.m_contents_length < file_pos + size
      → read_whole fuel (tar_pread i) buf size file_pos 0 m ≡ ok (failure invalid)
  read_whole-short zero m lt some_ end = absurd (omega arith)
  read_whole-short (suc zero) m lt some_ end = absurd (omega arith)
  read_whole-short (suc (suc fuel)) m lt some_ end =
      elim (Bool-cases (leb i.m_contents_length file_pos)) [
        | inl beyond ↦
            read-end (suc fuel) (tar_pread i) buf size file_pos 0 m m
              (tar-beyond i (buf + 0) (size - 0) (file_pos + 0) m (ground arith)) some_
        | inr within ↦
            let m' = (tar_read i buf size file_pos m).1 in
            let n = readable i size file_pos in
            read-step (suc fuel) (tar_pread i) buf size file_pos 0 m n m'
              (tar-first i buf size file_pos f apart m) some_ (ground arith)
            ∙ read-end fuel (tar_pread i) buf size file_pos (0 + n) m' m'
                (tar-beyond i (buf + (0 + n)) (size - (0 + n)) (file_pos + (0 + n)) m'
                  (ground arith))
                (ground arith)
      ]
