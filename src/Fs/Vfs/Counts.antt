-- ===== src/Fs/Vfs/Counts.antt =====
-- kernel/fs/vfs.cpp: the references of a step into a component of a path.
use tinylittleos.Common.{
  ℕ, suc, ◌+◌, ◌-◌, ◌<◌, ◌≡◌, ◌≢◌, ◌^◌, ◌⊎◌, refl, sym, ap, ◌∙◌, Bool-cases, inl, inr, true, false,
  ◌==◌, if◌then◌else◌, List, arith,
}
use tinylittleos.Common.Run.{ok}
use tinylittleos.Util.Errno.{Outcome, success, failure}
use tinylittleos.Fs.Vfs.{
  Inodes, Driver, update, release_inner, get_inode_struct, after_lookup, step_into,
}
use tinylittleos.Fs.Vfs.References.{take_ref_locked_lem, release-held, update_other}

-- The inode of a number is in memory, and another reference can be taken.
pub record Ready (s : Inodes) (curr found : ℕ) : Type 0 where
  pub known : s.table found ≢ 0
  pub numbered : s.i_num (s.table found) ≡ found
  pub held : 0 < s.i_rc (s.table found)
  pub countable : s.i_rc (s.table found) + 1 < 2 ^ 31
  pub apart : s.table found ≢ curr

abbrev pub with_taken : (inode : ℕ) → Inodes → Inodes
with_taken a s = record s { i_rc = update a (s.i_rc a + 1) s.i_rc }

-- The root keeps its references.
abbrev pub with_released : (root inode : ℕ) → Inodes → Inodes
with_released root a s = record s {
  i_rc = if s.i_num a == root then s.i_rc else update a (s.i_rc a - 1) s.i_rc;
}

abbrev pub moved : (root curr : ℕ) → Inodes → Outcome ℕ → Outcome ℕ × Inodes
moved root curr s (failure e) = (failure e, with_released root curr s)
moved root curr s (success found) =
    (success (s.table found), with_released root curr (with_taken (s.table found) s))

release_inner_lem :
    (fuel root a : ℕ) (s : Inodes)
    → (s.i_num a ≡ root) ⊎ (1 < s.i_rc a)
    → release_inner (suc fuel) root a s ≡ ok (with_released root a s)
release_inner_lem fuel root a s h = elim (Bool-cases (s.i_num a == root)) [
  | inl e ↦ rw e refl
  | inr e ↦
      let more : 1 < s.i_rc a = ground (arith, h) in
      let n : s.i_rc a ≡ s.i_rc a - 2 + 2 = omega arith in
      let less : s.i_rc a - 2 + 1 ≡ s.i_rc a - 1 = omega arith in
      rw e (
        release-held fuel a (s.i_rc a - 2) s n
        ∙ ap (λ c. ok (record s { i_rc = update a c s.i_rc })) less)
]

get_inode_struct-Ready :
    (fs : Driver) (found parent curr : ℕ) (s : Inodes)
    → Ready s curr found
    → get_inode_struct fs found parent s ≡ ok (s.table found, with_taken (s.table found) s)
unfolding get_inode_struct
get_inode_struct-Ready fs found parent curr s r =
    let a = s.table found in
    let k : (a == 0) ≡ false = ground (arith, r.known) in
    let same : (found == s.i_num a) ≡ true = ground (arith, r.numbered) in
    rw (k, same, take_ref_locked_lem a s r.held r.countable) refl

after_lookup-moved :
    (fs : Driver) (fuel root curr : ℕ) (s : Inodes) (o : Outcome ℕ)
    → (s.i_num curr ≡ root) ⊎ (1 < s.i_rc curr)
    → ((found : ℕ) → o ≡ success found → Ready s curr found)
    → after_lookup fs (suc fuel) root curr o s ≡ ok (moved root curr s o)
unfolding after_lookup
after_lookup-moved fs fuel root curr s (failure e) h r =
    rw (release_inner_lem fuel root curr s h) refl
after_lookup-moved fs fuel root curr s (success found) h r =
    let taken = with_taken (s.table found) s in
    let kept : taken.i_rc curr ≡ s.i_rc curr =
      update_other (s.table found) (s.i_rc (s.table found) + 1) curr s.i_rc
        (λ e. (r found refl).apart (sym e)) in
    let held : (taken.i_num curr ≡ root) ⊎ (1 < taken.i_rc curr) = elim h [
      | inl e ↦ inl e
      | inr m ↦ inr (omega arith)
    ] in
    rw
      (
        get_inode_struct-Ready fs found curr curr s (r found refl),
        release_inner_lem fuel root curr taken held,
      )
      refl

-- In a step of `traverse` into a component, the reference moves: the next inode, which is in memory,
-- has one more reference, and the current one, unless it is the root, one less, as it also has when
-- the component is not found. The current inode must be the root or have another reference.
pub step_into-moved :
    (fs : Driver) (fuel root curr : ℕ) (name : List ℕ) (s : Inodes)
    → (s.i_num curr ≡ root) ⊎ (1 < s.i_rc curr)
    → ((found : ℕ) → fs.lookup (s.i_num curr) name ≡ success found → Ready s curr found)
    → step_into fs (suc fuel) root curr name s
      ≡ ok (moved root curr s (fs.lookup (s.i_num curr) name))
unfolding step_into
step_into-moved fs fuel root curr name s =
    after_lookup-moved fs fuel root curr s (fs.lookup (s.i_num curr) name)
