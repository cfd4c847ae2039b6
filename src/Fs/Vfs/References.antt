-- ===== src/Fs/Vfs/References.antt =====
-- kernel/fs/vfs.cpp: the references to inodes that `get_inode_struct` takes and `release` gives back.
use tinylittleos.Common.{
  ℕ, suc, ◌+◌, ◌-◌, ◌<◌, ◌≡◌, ◌≢◌, ◌^◌, refl, sym, ap, fun_ext, ◌∙◌, true, false, ◌==◌, ltb, arith,
}
use tinylittleos.Common.Run.{ok, fault, assert_failed, ◌>>=◌}
use tinylittleos.Fs.Vfs.{
  Inodes, Driver, update, take_ref_locked, release_ref_locked, release, get_inode_struct,
}

update-update : (a v w : ℕ) (f : ℕ → ℕ) → update a v (update a w f) ≡ update a v f
update-update a v w f = fun_ext λ b. ground arith

update_same : (a : ℕ) (f : ℕ → ℕ) → update a (f a) f ≡ f
update_same a f = fun_ext λ b. ground (arith, ap f {x = a} {y = b})

pub update_at : (a v b : ℕ) (f : ℕ → ℕ) → b ≡ a → update a v f b ≡ v
update_at a v b f e = ground arith

pub update_other : (a v b : ℕ) (f : ℕ → ℕ) → b ≢ a → update a v f b ≡ f b
update_other a v b f ne = ground arith

update-back : (a : ℕ) (f : ℕ → ℕ) → 0 < f a → update a (f a - 1 + 1) (update a (f a + 1) f) ≡ f
update-back a f pos =
    let e : f a - 1 + 1 ≡ f a = omega arith in
    rw e (update-update a (f a) (f a + 1) f ∙ update_same a f)

pub take_ref_locked_lem :
    (a : ℕ) (s : Inodes)
    → 0 < s.i_rc a
    → s.i_rc a + 1 < 2 ^ 31
    → take_ref_locked a s ≡ ok (record s { i_rc = update a (s.i_rc a + 1) s.i_rc })
unfolding take_ref_locked
take_ref_locked_lem a s pos small =
    let e : ltb 0 (s.i_rc a) ≡ true = ground arith in
    let f : (s.i_rc a + 1 == 2 ^ 31) ≡ false = ground arith in rw (e, f) refl

release_ref_locked_lem :
    (a n : ℕ) (s : Inodes)
    → s.i_rc a ≡ n + 1
    → release_ref_locked a s ≡ ok (n == 0, record s { i_rc = update a n s.i_rc })
unfolding release_ref_locked
release_ref_locked_lem a n s e =
    let pos : ltb 0 (s.i_rc a) ≡ true = ground arith in
    let less : s.i_rc a - 1 ≡ n = omega arith in rw (pos, less) refl

pub release-held :
    (fuel a n : ℕ) (s : Inodes)
    → s.i_rc a ≡ n + 2
    → release (suc fuel) a s ≡ ok (record s { i_rc = update a (n + 1) s.i_rc })
unfolding release
release-held fuel a n s e =
    let more : (n + 1 == 0) ≡ false = ground arith in
    rw (release_ref_locked_lem a (n + 1) s (e ∙ omega arith), more) refl

release-last :
    (fuel a : ℕ) (s : Inodes)
    → s.i_rc a ≡ 1
    → s.i_parent_ref a ≢ 0
    → release (suc fuel) a s
      ≡ release fuel
          (s.i_parent_ref a)
          (record s { i_rc = update a 0 s.i_rc; table = update (s.i_num a) 0 s.table })
unfolding release
release-last fuel a s e ne =
    let p : (s.i_parent_ref a == 0) ≡ false = ground arith in
    rw (release_ref_locked_lem a 0 s e, p) refl

pub release-child :
    (fuel a p n : ℕ) (s : Inodes)
    → s.i_rc a ≡ 1
    → s.i_parent_ref a ≡ p
    → p ≢ 0
    → p ≢ a
    → s.i_rc p ≡ n + 2
    → release (suc (suc fuel)) a s
      ≡ ok (record s {
        i_rc = update p (n + 1) (update a 0 s.i_rc);
        table = update (s.i_num a) 0 s.table;
      })
release-child fuel a p n s one e ne apart more =
    release-last (suc fuel) a s one (λ z. ne (sym e ∙ z))
    ∙ ap
        (λ q.
          release (suc fuel) q
            (record s { i_rc = update a 0 s.i_rc; table = update (s.i_num a) 0 s.table }))
        e
    ∙ release-held fuel p n
        (record s { i_rc = update a 0 s.i_rc; table = update (s.i_num a) 0 s.table })
        (update_other a 0 p s.i_rc apart ∙ more)

pub release-none :
    (fuel a : ℕ) (s : Inodes) → s.i_rc a ≡ 0 → release (suc fuel) a s ≡ fault assert_failed
unfolding release release_ref_locked
release-none fuel a s e = rw e refl

pub release-taken :
    (fuel a : ℕ) (s : Inodes)
    → 0 < s.i_rc a
    → release (suc fuel) a (record s { i_rc = update a (s.i_rc a + 1) s.i_rc }) ≡ ok s
release-taken fuel a s pos =
    release-held fuel a (s.i_rc a - 1) (record s { i_rc = update a (s.i_rc a + 1) s.i_rc })
      (update_at a (s.i_rc a + 1) a s.i_rc refl ∙ omega arith)
    ∙ ap (λ rc. ok (record s { i_rc = rc })) (update-back a s.i_rc pos)

-- For an inode in the table that has references, `release` after `get_inode_struct` gives back the
-- counts, the table and everything else as they were.
pub release-get_inode_struct :
    (fs : Driver) (fuel i_num parent : ℕ) (s : Inodes)
    → s.table i_num ≢ 0
    → s.i_num (s.table i_num) ≡ i_num
    → 0 < s.i_rc (s.table i_num)
    → s.i_rc (s.table i_num) + 1 < 2 ^ 31
    → (get_inode_struct fs i_num parent s >>= λ r. release (suc fuel) r.0 r.1) ≡ ok s
unfolding get_inode_struct
release-get_inode_struct fs fuel i_num parent s known num pos small =
    let a = s.table i_num in
    let k : (a == 0) ≡ false = ground arith in
    let same : (i_num == s.i_num a) ≡ true = ground arith in
    rw (k, same, take_ref_locked_lem a s pos small) (release-taken fuel a s pos)
