-- ===== src/Fs/Vfs/NewInode.antt =====
-- kernel/fs/vfs.cpp: an inode that `get_inode_struct` makes, and its release.
use tinylittleos.Common.{
  ℕ, zero, suc, ◌+◌, ◌-◌, ◌<◌, ◌≡◌, ◌≢◌, ◌^◌, refl, sym, ap, fun_ext, ◌∙◌, false, ◌==◌, arith,
}
use tinylittleos.Common.Run.{Run, ok, fault, assert_failed, ◌>>=◌}
use tinylittleos.Fs.Vfs.{Inodes, Driver, update, release, new_inode, get_inode_struct}
use tinylittleos.Fs.Vfs.References.{
  update_at, update_other, take_ref_locked_lem, release-held, release-child, release-none,
}

-- The inodes with a new one.
abbrev pub with_new : (n i_num parent : ℕ) → Inodes → Inodes
with_new n i_num parent s = record {
  table = update i_num n s.table;
  i_num = update n i_num s.i_num;
  i_rc = update parent (s.i_rc parent + 1) s.i_rc;
  i_parent_ref = update n parent s.i_parent_ref;
}

-- The inodes with the memory of one that is gone.
abbrev pub with_freed : (n i_num parent : ℕ) → Inodes → Inodes
with_freed n i_num parent s = record {
  table = s.table;
  i_num = update n i_num s.i_num;
  i_rc = update n 0 s.i_rc;
  i_parent_ref = update n parent s.i_parent_ref;
}

get_inode_struct-new :
    (fs : Driver) (i_num parent : ℕ) (s : Inodes)
    → s.table i_num ≡ 0
    → parent ≢ 0
    → 0 < s.i_rc parent
    → s.i_rc parent + 1 < 2 ^ 31
    → get_inode_struct fs i_num parent s
      ≡ ok (fs.new_address s, with_new (fs.new_address s) i_num parent s)
unfolding get_inode_struct new_inode
get_inode_struct-new fs i_num parent s unknown ne pos small =
    let p : (parent == 0) ≡ false = ground arith in
    rw
      (
        unknown,
        p,
        take_ref_locked_lem parent
            (record s { i_parent_ref = update (fs.new_address s) parent s.i_parent_ref }) pos small,
      )
      refl

freed_rc :
    (n p : ℕ) (f : ℕ → ℕ)
    → n ≢ p
    → 0 < f p
    → update p (f p - 1 + 1) (update n 0 (update p (f p + 1) f)) ≡ update n 0 f
freed_rc n p f ne pos = fun_ext λ b. ground (arith, ap f {x = b} {y = p})

freed_table : (i n : ℕ) (f : ℕ → ℕ) → f i ≡ 0 → update i 0 (update i n f) ≡ f
freed_table i n f e = fun_ext λ b. ground (arith, ap f {x = b} {y = i})

release-new_last :
    (fuel n i_num parent : ℕ) (s : Inodes)
    → s.table i_num ≡ 0
    → n ≢ parent
    → parent ≢ 0
    → 0 < s.i_rc parent
    → s.i_rc n ≡ 1
    → release (suc (suc fuel)) n (with_new n i_num parent s) ≡ ok (with_freed n i_num parent s)
release-new_last fuel n i_num parent s unknown apart ne pos one =
    let w = with_new n i_num parent s in
    let num : w.i_num n ≡ i_num = update_at n i_num n s.i_num refl in
    let rc : update parent (s.i_rc parent - 1 + 1) (update n 0 w.i_rc) ≡ update n 0 s.i_rc =
      freed_rc n parent s.i_rc apart pos in
    let table : update (w.i_num n) 0 w.table ≡ s.table =
      ap (λ i. update i 0 w.table) num ∙ freed_table i_num n s.table unknown in
    release-child fuel n parent (s.i_rc parent - 1) w
      (update_other parent (s.i_rc parent + 1) n s.i_rc apart ∙ one)
      (update_at n parent n s.i_parent_ref refl) ne (λ e. apart (sym e))
      (update_at parent (s.i_rc parent + 1) parent s.i_rc refl ∙ omega arith)
    ∙ ap (λ c. ok (record w { i_rc = c; table = update (w.i_num n) 0 w.table })) rc
    ∙ ap (λ t. ok (record (with_freed n i_num parent s) { table = t })) table

-- What `release` leaves of a new inode, by the count that its memory held.
abbrev pub released : (n i_num parent : ℕ) → Inodes → (count : ℕ) → Run Inodes
released n i_num parent s zero = fault assert_failed
released n i_num parent s (suc zero) = ok (with_freed n i_num parent s)
released n i_num parent s (suc (suc count)) =
    let w = with_new n i_num parent s in ok (record w { i_rc = update n (count + 1) w.i_rc })

release-with_new :
    (fuel n i_num parent : ℕ) (s : Inodes) (count : ℕ)
    → s.i_rc n ≡ count
    → s.table i_num ≡ 0
    → n ≢ parent
    → parent ≢ 0
    → 0 < s.i_rc parent
    → release (suc (suc fuel)) n (with_new n i_num parent s) ≡ released n i_num parent s count
release-with_new fuel n i_num parent s zero e unknown apart ne pos =
    release-none (suc fuel) n (with_new n i_num parent s)
      (update_other parent (s.i_rc parent + 1) n s.i_rc apart ∙ e)
release-with_new fuel n i_num parent s (suc zero) e unknown apart ne pos =
    release-new_last fuel n i_num parent s unknown apart ne pos e
release-with_new fuel n i_num parent s (suc (suc count)) e unknown apart ne pos =
    release-held (suc fuel) n count (with_new n i_num parent s)
      (update_other parent (s.i_rc parent + 1) n s.i_rc apart ∙ e ∙ omega arith)

-- For an inode that is not in the table, below a parent that has references, `release` after
-- `get_inode_struct` depends on the count that the memory of the new inode held: with 1 the table
-- and the counts of all other inodes are as they were, with 0 an assertion fails, and with more the
-- inode stays.
pub release-new_inode :
    (fs : Driver) (fuel i_num parent : ℕ) (s : Inodes)
    → s.table i_num ≡ 0
    → fs.new_address s ≢ parent
    → parent ≢ 0
    → 0 < s.i_rc parent
    → s.i_rc parent + 1 < 2 ^ 31
    → (get_inode_struct fs i_num parent s >>= λ r. release (suc (suc fuel)) r.0 r.1)
      ≡ released (fs.new_address s) i_num parent s (s.i_rc (fs.new_address s))
release-new_inode fs fuel i_num parent s unknown apart ne pos small =
    let n = fs.new_address s in
    rw (get_inode_struct-new fs i_num parent s unknown ne pos small)
      (release-with_new fuel n i_num parent s (s.i_rc n) refl unknown apart ne pos)
