-- ===== src/Fs/Vfs/Mounts.antt =====
-- kernel/fs/vfs.cpp: the choice of the mount point of a path.
use tinylittleos.Common.{
  ℕ, ◌<◌, ◌≤◌, ◌≡◌, ◌⊎◌, inl, inr, refl, Bool, Bool-cases, true, not, ◌&&◌, ◌||◌, ◌==◌, ltb, leb,
  List, [], ◌∷◌, length, get_or, Option, none, some, arith,
}
use tinylittleos.Fs.Vfs.{MountPoint, same_bytes, skipped, best_mount}

-- The path is that of the mount point, or lies below it.
unfoldable pub matches : (path : List ℕ) → MountPoint → Bool
matches path m =
    let n = length m.m_path in
    leb n (length path)
    && ((n == 1 || (length path == n || get_or path n 0 == b'/')) && same_bytes n m.m_path path)

abbrev pub All : (MountPoint → Type 0) → List MountPoint → Type 0
All P [] = Unit {0}
All P (m ∷ mounts) = P m × All P mounts

abbrev pub Any : (MountPoint → Type 0) → List MountPoint → Type 0
Any P [] = ⊥
Any P (m ∷ mounts) = P m ⊎ Any P mounts

-- No mount point of the path is longer.
abbrev pub Bounded : (path : List ℕ) → (bound : ℕ) → List MountPoint → Type 0
Bounded path bound = All (λ m. matches path m ≡ true → length m.m_path ≤ bound)

Bounded-mono :
    (path : List ℕ) (a b : ℕ) (mounts : List MountPoint)
    → a ≤ b
    → Bounded path a mounts
    → Bounded path b mounts
Bounded-mono path a b [] le w = tt
Bounded-mono path a b (m ∷ mounts) le w =
    (λ h. omega (arith, w.0 h), Bounded-mono path a b mounts le w.1)

-- A mount point of the path in the list, and none is longer.
abbrev pub Longest : (path : List ℕ) → List MountPoint → (best_length : ℕ) → MountPoint → Type 0
Longest path mounts best_length m =
    Any (λ m'. m' ≡ m) mounts
    × (matches path m ≡ true)
    × (best_length < length m.m_path)
    × Bounded path (length m.m_path) mounts

abbrev Chosen :
    (path : List ℕ)
    → List MountPoint
    → Option MountPoint
    → (best_length : ℕ) → Option MountPoint
    → Type 0
Chosen path mounts best best_length result =
    ((result ≡ best) × Bounded path best_length mounts)
    ⊎ ((m : MountPoint) × (result ≡ some m) × Longest path mounts best_length m)

skipped_lem :
    (path : List ℕ) (m : MountPoint) (best_length : ℕ)
    → skipped path m best_length ≡ not (ltb best_length (length m.m_path) && matches path m)
unfolding skipped matches
skipped_lem path m best_length = ground arith

best_mount-Chosen :
    (path : List ℕ) (mounts : List MountPoint) (best : Option MountPoint) (best_length : ℕ)
    → Chosen path mounts best best_length (best_mount path mounts best best_length)
unfolding best_mount
best_mount-Chosen path [] best best_length = inl (refl, tt)
best_mount-Chosen path (m ∷ mounts) best best_length =
    elim (Bool-cases (skipped path m best_length)) [
      | inl skip ↦ rw skip (elim (best_mount-Chosen path mounts best best_length) [
        | inl (e, bound) ↦ inl (e, (λ h. ground (arith, skipped_lem path m best_length), bound))
        | inr (m', e, (any, fits, longer, bound)) ↦ inr (
          m',
          e,
          (inr any, fits, longer, (λ h. ground (arith, skipped_lem path m best_length), bound)),
        )
      ])
      | inr keep ↦
          let good : (ltb best_length (length m.m_path) && matches path m) ≡ true =
            ground (arith, skipped_lem path m best_length) in
          rw keep (elim (best_mount-Chosen path mounts (some m) (length m.m_path)) [
            | inl (e, bound) ↦
                inr (m, e, (inl refl, ground arith, ground arith, (λ h. omega arith, bound)))
            | inr (m', e, (any, fits, longer, bound)) ↦
                inr (m', e, (inr any, fits, ground arith, (λ h. omega (arith, longer), bound)))
          ])
    ]

-- Of the mount points that are the path or above it, `traverse` takes one with the longest path, and
-- none only if there is none.
pub best_mount-Longest :
    (path : List ℕ) (mounts : List MountPoint)
    → ((best_mount path mounts none 0 ≡ none) × Bounded path 0 mounts)
      ⊎ ((m : MountPoint) × (best_mount path mounts none 0 ≡ some m) × Longest path mounts 0 m)
best_mount-Longest path mounts = best_mount-Chosen path mounts none 0
