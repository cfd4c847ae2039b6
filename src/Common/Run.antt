-- ===== src/Common/Run.antt =====
-- Kernel code that may not return: a failed `kassert` or a `kpanic` stops the machine, an access
-- outside an array or through a null pointer is undefined, and a loop may run out of its fuel.
use Prim.Native.Nat.{ℕ, zero, suc, ◌<◌}
use mathlib.Core.Path.{◌≡◌, refl, sym, ap, subst, ◌∙◌}
use mathlib.Core.Bool.{Bool, true, false}
use mathlib.Core.List.{List, [], ◌∷◌}
use native.Mathlib.Omega.{arith}
use tinylittleos.Common.Arrays.{length, get_or, set}

pub data Fault : Type 0 where
  assert_failed panicked undefined out_of_bounds null_pointer out_of_fuel : Fault

pub data Run {ℓ} (A : Type ℓ) : Type ℓ where
  fault : Fault → Run A
  ok : A → Run A

infixl 5 ◌>>=◌ ◌>>◌
abbrev pub ◌>>=◌ {ℓ κ} : {A : Type ℓ} {B : Type κ} → Run A → (A → Run B) → Run B
fault reason >>= next = fault reason
ok value >>= next = next value

abbrev pub ◌>>◌ {ℓ} : {B : Type ℓ} → Run (Unit {0}) → Run B → Run B
m >> k = m >>= λ _. k

-- `kassert(b)`
abbrev pub kassert : Bool → Run (Unit {0})
kassert true = ok tt
kassert false = fault assert_failed

-- The run returns normally, in a value with the property.
abbrev pub Returns {ℓ κ} : {A : Type ℓ} (run : Run A) (Post : A → Type κ) → Type (ℓ ⊔ κ)
Returns {A} run Post = (value : A) × (run ≡ ok value) × Post value

module _ {ℓ} {A : Type ℓ} where
  -- `xs[i]`
  unfoldable pub read : List A → ℕ → Run A
  read [] i = fault out_of_bounds
  read (x ∷ xs) zero = ok x
  read (x ∷ xs) (suc i) = read xs i

  -- `xs[i] = v`
  unfoldable pub write : List A → ℕ → A → Run (List A)
  write [] i v = fault out_of_bounds
  write (x ∷ xs) zero v = ok (v ∷ xs)
  write (x ∷ xs) (suc i) v = do ys ← write xs i v; ok (x ∷ ys)

  pub read-ok : (xs : List A) (i : ℕ) (d : A) → i < length xs → read xs i ≡ ok (get_or xs i d)
  unfolding read get_or
  read-ok [] i d h = absurd (omega arith)
  read-ok (x ∷ xs) zero d h = refl
  read-ok (x ∷ xs) (suc i) d h = read-ok xs i d (omega arith)

  pub write-ok : (xs : List A) (i : ℕ) (v : A) → i < length xs → write xs i v ≡ ok (set xs i v)
  unfolding write set
  write-ok [] i v h = absurd (omega arith)
  write-ok (x ∷ xs) zero v h = refl
  write-ok (x ∷ xs) (suc i) v h = ground (arith, write-ok xs i v)

unfoldable pub value_or {ℓ} : {A : Type ℓ} → A → Run A → A
value_or d (ok a) = a
value_or d (fault e) = d

-- What a run returns is unique.
pub Returns-value {ℓ κ} :
    {A : Type ℓ} {P : A → Type κ} {r : Run A} → Returns r P → (a : A) → r ≡ ok a → P a
unfolding value_or
Returns-value {P} (b, run, p) a e = subst P (ap (value_or b) (sym run ∙ e)) p
