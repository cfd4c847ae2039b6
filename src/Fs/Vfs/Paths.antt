-- ===== src/Fs/Vfs/Paths.antt =====
-- kernel/fs/vfs.cpp: the traversal of a path by its components.
use tinylittleos.Common.{
  ℕ, zero, suc, ◌<◌, ◌≤◌, ◌≡◌, refl, sym, ap, fun_ext, ◌∙◌, Bool-cases, inl, inr, true, false, ◌==◌,
  if◌then◌else◌, List, [], ◌∷◌, ◌++◌, length, arith,
}
use mathlib.Core.List.{append_assoc, append-nil}
use tinylittleos.Common.Run.{Run, ok, ◌>>=◌}
use tinylittleos.Util.Errno.{Outcome, success, failure}
use tinylittleos.Fs.Vfs.{Inodes, Driver, step_into, until_slash, from_slash, walk}

-- The texts between the "/", without empty ones; `current` is the one that was begun.
abbrev flush : List ℕ → List (List ℕ)
flush [] = []
flush (c ∷ name) = (c ∷ name) ∷ []

unfoldable pub split : (current path : List ℕ) → List (List ℕ)
split current [] = flush current
split current (c ∷ path) =
    if c == b'/' then flush current ++ split [] path else split (current ++ c ∷ []) path

abbrev pub components : (path : List ℕ) → List (List ℕ)
components path = split [] path

-- One step for each component, until one fails.
unfoldable pub resolve :
    Driver → (fuel root curr : ℕ) → List (List ℕ) → Inodes → Run (Outcome ℕ × Inodes)
resolve fs fuel root curr [] s = ok (success curr, s)
resolve fs fuel root curr (name ∷ names) s = step_into fs fuel root curr name s >>= λ r. elim r.0 [
  | failure e ↦ ok r
  | success inode ↦ resolve fs fuel root inode names r.1
]

length-from_slash : (path : List ℕ) → length (from_slash path) ≤ length path
unfolding from_slash
length-from_slash [] = omega arith
length-from_slash (c ∷ path) = ground (arith, length-from_slash path)

split_begun :
    (c : ℕ) (current path : List ℕ)
    → split (c ∷ current) path ≡ (c ∷ (current ++ until_slash path)) ∷ split [] (from_slash path)
unfolding split until_slash from_slash
split_begun c current [] = ap (λ l. (c ∷ l) ∷ []) (sym (append-nil current))
split_begun c current (d ∷ path) = elim (Bool-cases (d == b'/')) [
  | inl slash ↦
      let e : split [] (d ∷ path) ≡ split [] path = unfold split in rw slash in
      rw slash (rw e (ap (λ l. (c ∷ l) ∷ split [] path) (sym (append-nil current))))
  | inr plain ↦ rw plain (
      split_begun c (current ++ d ∷ []) path
      ∙ ap (λ l. (c ∷ l) ∷ split [] (from_slash path))
          (append_assoc current (d ∷ []) (until_slash path)))
]

components-cons :
    (c : ℕ) (path : List ℕ)
    → (c == b'/') ≡ false
    → components (c ∷ path) ≡ until_slash (c ∷ path) ∷ components (from_slash (c ∷ path))
components-cons c path plain =
    let e : split [] (c ∷ path) ≡ split (c ∷ []) path = unfold split in rw plain in
    e ∙ split_begun c [] path ∙ unfold until_slash from_slash in rw plain

next_equal {ℓ} :
    {A : Type ℓ} (o : Outcome ℕ) (a : A) (f g : ℕ → A)
    → ((i : ℕ) → f i ≡ g i)
    → (elim o as (λ _. A) [ failure e ↦ a | success i ↦ f i ])
      ≡ (elim o as (λ _. A) [ failure e ↦ a | success i ↦ g i ])
next_equal (failure e) a f g h = refl
next_equal (success i) a f g h = h i

shorter :
    (c : ℕ) (path : List ℕ) (steps : ℕ)
    → (c == b'/') ≡ false
    → length (c ∷ path) < suc steps
    → length (from_slash (c ∷ path)) < steps
unfolding from_slash
shorter c path steps plain lt = ground (arith, length-from_slash path)

unfoldable then_walk :
    Driver
    → (steps fuel root : ℕ) → (path : List ℕ) → (Outcome ℕ × Inodes)
    → Run (Outcome ℕ × Inodes)
then_walk fs steps fuel root path r = elim r.0 [
  | failure e ↦ ok r
  | success inode ↦ walk fs steps fuel root inode path r.1
]

walk-plain :
    (fs : Driver) (steps fuel root curr c : ℕ) (path : List ℕ) (s : Inodes)
    → (c == b'/') ≡ false
    → walk fs (suc steps) fuel root curr (c ∷ path) s ≡ (
        step_into fs fuel root curr (until_slash (c ∷ path)) s
        >>= then_walk fs steps fuel root (from_slash (c ∷ path)))
unfolding walk then_walk
walk-plain fs steps fuel root curr c path s plain =
    ap
      (λ b.
        if b
        then walk fs steps fuel root curr path s
        else step_into fs fuel root curr (until_slash (c ∷ path)) s
          >>= then_walk fs steps fuel root (from_slash (c ∷ path)))
      plain

walk-slash :
    (fs : Driver) (steps fuel root curr c : ℕ) (path : List ℕ) (s : Inodes)
    → (c == b'/') ≡ true
    → walk fs (suc steps) fuel root curr (c ∷ path) s ≡ walk fs steps fuel root curr path s
unfolding walk then_walk
walk-slash fs steps fuel root curr c path s slash =
    ap
      (λ b.
        if b
        then walk fs steps fuel root curr path s
        else step_into fs fuel root curr (until_slash (c ∷ path)) s
          >>= then_walk fs steps fuel root (from_slash (c ∷ path)))
      slash

unfoldable pub then_resolve :
    Driver → (fuel root : ℕ) → List (List ℕ) → (Outcome ℕ × Inodes) → Run (Outcome ℕ × Inodes)
then_resolve fs fuel root names r = elim r.0 [
  | failure e ↦ ok r
  | success inode ↦ resolve fs fuel root inode names r.1
]

then_walk-then_resolve :
    (fs : Driver) (steps fuel root : ℕ) (path : List ℕ) (names : List (List ℕ))
    → ((inode : ℕ) (s : Inodes)
        → walk fs steps fuel root inode path s ≡ resolve fs fuel root inode names s)
    → then_walk fs steps fuel root path ≡ then_resolve fs fuel root names
unfolding then_walk then_resolve
then_walk-then_resolve fs steps fuel root path names h = fun_ext λ r.
    next_equal r.0 (ok r) (λ inode. walk fs steps fuel root inode path r.1)
      (λ inode. resolve fs fuel root inode names r.1) (λ inode. h inode r.1)

pub resolve-cons :
    (fs : Driver) (fuel root curr : ℕ) (name : List ℕ) (names : List (List ℕ)) (s : Inodes)
    → (step_into fs fuel root curr name s >>= then_resolve fs fuel root names)
      ≡ resolve fs fuel root curr (name ∷ names) s
unfolding resolve then_resolve
resolve-cons fs fuel root curr name names s = refl

-- With a step for each byte and one more, the loop of `traverse` ends or fails as the steps into the
-- components of the path do, one after the other; more than one "/" between them, before or
-- behind them change nothing.
pub walk-components :
    (fs : Driver) (steps fuel root curr : ℕ) (path : List ℕ) (s : Inodes)
    → length path < steps
    → walk fs steps fuel root curr path s ≡ resolve fs fuel root curr (components path) s
walk-components fs zero fuel root curr path s lt = absurd (omega arith)
walk-components fs (suc steps) fuel root curr [] s lt = unfold walk split resolve in refl
walk-components fs (suc steps) fuel root curr (c ∷ path) s lt = elim (Bool-cases (c == b'/')) [
  | inl slash ↦
      let e : components (c ∷ path) ≡ components path = unfold split in rw slash in
      walk-slash fs steps fuel root curr c path s slash
      ∙ walk-components fs steps fuel root curr path s (omega arith)
      ∙ ap (λ l. resolve fs fuel root curr l s) (sym e)
  | inr plain ↦
      let names = components (from_slash (c ∷ path)) in
      walk-plain fs steps fuel root curr c path s plain
      ∙ ap (λ k. step_into fs fuel root curr (until_slash (c ∷ path)) s >>= k)
          (then_walk-then_resolve fs steps fuel root (from_slash (c ∷ path)) names (λ inode s1.
            walk-components fs steps fuel root inode (from_slash (c ∷ path)) s1
              (shorter c path steps plain lt)))
      ∙ resolve-cons fs fuel root curr (until_slash (c ∷ path)) names s
      ∙ ap (λ l. resolve fs fuel root curr l s) (sym (components-cons c path plain))
]
