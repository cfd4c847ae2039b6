-- ===== src/Fs/Vfs/Cached.antt =====
-- kernel/fs/vfs.cpp: paths whose inodes are all in memory, against their resolution without counts.
use tinylittleos.Common.{
  ℕ, suc, ◌+◌, ◌-◌, ◌<◌, ◌≡◌, ◌≢◌, ◌^◌, ◌⊎◌, refl, sym, ap, fun_ext, ◌∙◌, Bool, Bool-cases, inl,
  inr, true, false, ◌==◌, if◌then◌else◌, List, [], ◌∷◌, length, none, some, arith,
}
use tinylittleos.Common.Run.{ok, ◌>>=◌}
use tinylittleos.Util.Errno.{Outcome, success, failure}
use tinylittleos.Fs.Vfs.{MountPoint, Inodes, Driver, Mounted, update, best_mount, drop, traverse}
use tinylittleos.Fs.Vfs.References.{update_at, update_other}
use tinylittleos.Fs.Vfs.Paths.{components, resolve, then_resolve, resolve-cons}
use tinylittleos.Fs.Vfs.Traversal.{finish, traverse-components}
use tinylittleos.Fs.Vfs.Counts.{Ready, moved, step_into-moved}

-- The inode of the components, or the first error.
unfoldable pub find_path : Driver → Inodes → (curr : ℕ) → List (List ℕ) → Outcome ℕ
find_path fs s curr [] = success curr
find_path fs s curr (name ∷ names) = elim (fs.lookup (s.i_num curr) name) [
  | failure e ↦ failure e
  | success found ↦ find_path fs s (s.table found) names
]

-- A reference more, unless the inode is the root.
abbrev pub with_one : (root inode : ℕ) → Inodes → Inodes
with_one root a s = record s {
  i_rc = if s.i_num a == root then s.i_rc else update a (s.i_rc a + 1) s.i_rc;
}

-- A component of an inode, in memory.
pub record IsChild (P : ℕ → Type 0) (root : ℕ) (s : Inodes) (a found : ℕ) : Type 0 where
  pub member : P (s.table found)
  pub known : s.table found ≢ 0
  pub numbered : s.i_num (s.table found) ≡ found
  pub apart : s.table found ≢ a
  pub below : found ≢ root

-- A set of inodes in memory that holds what is found in them; nothing in it leads back to the root.
pub record Cached (fs : Driver) (root : ℕ) (s : Inodes) (P : ℕ → Type 0) : Type 0 where
  pub closed :
      (a found : ℕ) (name : List ℕ)
      → P a
      → fs.lookup (s.i_num a) name ≡ success found
      → IsChild P root s a found
  pub held : (a : ℕ) → P a → 0 < s.i_rc a
  pub countable : (a : ℕ) → P a → s.i_rc a + 1 < 2 ^ 31

abbrev pub finished : (root : ℕ) → Inodes → Outcome ℕ → Outcome ℕ × Inodes
finished root s (failure e) = (failure e, s)
finished root s (success a) = (success a, with_one root a s)

given_back :
    (rc : ℕ → ℕ) (curr : ℕ) (is_root : Bool)
    → (if is_root
        then (if is_root then rc else update curr (rc curr + 1) rc)
        else update curr
            ((if is_root then rc else update curr (rc curr + 1) rc) curr - 1)
            (if is_root then rc else update curr (rc curr + 1) rc))
      ≡ rc
given_back rc curr true = refl
given_back rc curr false = fun_ext λ b. ground (arith, ap rc {x = b} {y = curr})

passed_on :
    (rc : ℕ → ℕ) (curr a : ℕ)
    → a ≢ curr
    → let held = update curr (rc curr + 1) rc in
      let taken = update a (held a + 1) held in
      update curr (taken curr - 1) taken ≡ update a (rc a + 1) rc
passed_on rc curr a apart = fun_ext λ b. ground (arith, ap rc {x = b} {y = curr})

passed :
    (rc : ℕ → ℕ) (curr a : ℕ) (is_root : Bool)
    → a ≢ curr
    → let held = if is_root then rc else update curr (rc curr + 1) rc in
      let taken = update a (held a + 1) held in
      (if is_root then taken else update curr (taken curr - 1) taken) ≡ update a (rc a + 1) rc
passed rc curr a true apart = refl
passed rc curr a false apart = passed_on rc curr a apart

module _ (fs : Driver) (root : ℕ) (s : Inodes) (P : ℕ → Type 0) (c : Cached fs root s P) where
  Ready-child :
      (curr found : ℕ) (name : List ℕ)
      → P curr
      → fs.lookup (s.i_num curr) name ≡ success found
      → Ready (with_one root curr s) curr found
  Ready-child curr found name p e =
      let child = c.closed curr found name p e in
      let same : (with_one root curr s).i_rc (s.table found) ≡ s.i_rc (s.table found) =
        elim (Bool-cases (s.i_num curr == root)) [
          | inl r ↦ rw r refl
          | inr r ↦ rw r (update_other curr (s.i_rc curr + 1) (s.table found) s.i_rc child.apart)
        ] in
      record {
        known = child.known;
        numbered = child.numbered;
        held = omega (arith, same, c.held (s.table found) child.member);
        countable = omega (arith, same, c.countable (s.table found) child.member);
        apart = child.apart;
      }

  current_held :
      (curr : ℕ) → P curr → (s.i_num curr ≡ root) ⊎ (1 < (with_one root curr s).i_rc curr)
  current_held curr p = elim (Bool-cases (s.i_num curr == root)) [
    | inl r ↦ inl (ground arith)
    | inr r ↦
        inr (rw r (omega (arith, update_at curr (s.i_rc curr + 1) curr s.i_rc refl, c.held curr p)))
  ]

  -- The state after a step.
  moved-success :
      (curr found : ℕ)
      → IsChild P root s curr found
      → moved root curr (with_one root curr s) (success found)
        ≡ (success (s.table found), with_one root (s.table found) s)
  moved-success curr found child =
      let far : (s.i_num (s.table found) == root) ≡ false =
        ground (arith, child.numbered, child.below) in
      rw far (
        ap (λ rc. (success (s.table found), record s { i_rc = rc }))
          (passed s.i_rc curr (s.table found) (s.i_num curr == root) child.apart))

  moved-failure :
      (curr : ℕ) (e : _) → moved root curr (with_one root curr s) (failure e) ≡ (failure e, s)
  moved-failure curr e =
      ap (λ rc. (failure e, record s { i_rc = rc })) (given_back s.i_rc curr (s.i_num curr == root))

  next_finished :
      (fuel curr : ℕ) (name : List ℕ) (names : List (List ℕ)) (o : Outcome ℕ)
      → P curr
      → fs.lookup (s.i_num curr) name ≡ o
      → ((a : ℕ)
          → P a
          → resolve fs (suc fuel) root a names (with_one root a s)
            ≡ ok (finished root s (find_path fs s a names)))
      → then_resolve fs (suc fuel) root names (moved root curr (with_one root curr s) o)
        ≡ ok (
            finished root s (elim o [
              | failure e ↦ failure e
              | success found ↦ find_path fs s (s.table found) names
            ]))
  unfolding then_resolve
  next_finished fuel curr name names (failure e) p l rest =
      ap (λ r. then_resolve fs (suc fuel) root names r) (moved-failure curr e)
  next_finished fuel curr name names (success found) p l rest =
      ap (λ r. then_resolve fs (suc fuel) root names r)
        (moved-success curr found (c.closed curr found name p l))
      ∙ rest (s.table found) (c.closed curr found name p l).member

  resolve-finished :
      (fuel curr : ℕ) (names : List (List ℕ))
      → P curr
      → resolve fs (suc fuel) root curr names (with_one root curr s)
        ≡ ok (finished root s (find_path fs s curr names))
  unfolding find_path
  resolve-finished fuel curr [] p = unfold resolve in refl
  resolve-finished fuel curr (name ∷ names) p =
      sym (resolve-cons fs (suc fuel) root curr name names (with_one root curr s))
      ∙ ap (λ r. r >>= then_resolve fs (suc fuel) root names)
          (step_into-moved fs fuel root curr name (with_one root curr s) (current_held curr p)
            (λ found l. Ready-child curr found name p l))
      ∙ next_finished fuel curr name names (fs.lookup (s.i_num curr) name) p refl
          (λ a q. resolve-finished fuel a names q)

-- For a path below a mount point `m` whose inodes are all in memory, and which does not lead back to
-- the root, `traverse` with a step for each byte and one more gives the inode at its end and takes one
-- reference to it, none to the root, or gives the first error; all other counts are as before.
pub traverse-Cached :
    (v : Mounted) (steps fuel : ℕ) (path : List ℕ) (state : ℕ → Inodes) (m : MountPoint)
    (P : ℕ → Type 0)
    → best_mount path v.mounts none 0 ≡ some m
    → 0 < length path
    → length path < steps
    → (state m.m_fs).table (v.root_inode m.m_fs) ≢ 0
    → (state m.m_fs).i_num ((state m.m_fs).table (v.root_inode m.m_fs)) ≡ v.root_inode m.m_fs
    → P ((state m.m_fs).table (v.root_inode m.m_fs))
    → Cached (v.driver m.m_fs) (v.root_inode m.m_fs) (state m.m_fs) P
    → traverse v steps (suc fuel) path state
      ≡ finish m.m_fs state (
          finished (v.root_inode m.m_fs) (state m.m_fs) (
            find_path
              (v.driver m.m_fs)
              (state m.m_fs)
              ((state m.m_fs).table (v.root_inode m.m_fs))
              (components (drop (length m.m_path) path))))
traverse-Cached v steps fuel path state m P best pos enough known numbered member cached =
    let s = state m.m_fs in
    let root = v.root_inode m.m_fs in
    let names = components (drop (length m.m_path) path) in
    let is_root : (s.i_num (s.table root) == root) ≡ true = ground arith in
    let start : with_one root (s.table root) s ≡ s = rw is_root refl in
    traverse-components v steps (suc fuel) path state m best pos enough known
    ∙ ap
        (λ w.
          resolve (v.driver m.m_fs) (suc fuel) root (s.table root) names w >>= finish m.m_fs state)
        (sym start)
    ∙ ap (λ r. r >>= finish m.m_fs state)
        (resolve-finished (v.driver m.m_fs) root s P cached fuel (s.table root) names member)
