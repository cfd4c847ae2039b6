-- ===== src/Common/Bits/Step.antt =====
-- The native operations stand for a recursion on binary digits with fuel. Here the fuel is dropped.
use Prim.Native.Nat.{
  ℕ, zero, suc, ◌+◌, ◌-◌, ◌*◌, ◌/◌, ◌%◌, ◌≤◌, ◌<◌, min, max, bit_and, bit_or, bit_xor, differ,
}
use Prim.Native.Nat.{digits, bitwise, bit_and-bitwise, bit_or-bitwise, bit_xor-bitwise}
use mathlib.Core.Path.{◌≡◌, refl, ap, ◌∙◌}
use native.Mathlib.Nat.{le_refl}
use native.Mathlib.Omega.{arith}
use tinylittleos.Common.Tests.{◌==◌, if◌then◌else◌}

module _ (rest : ℕ → ℕ) (op : ℕ → ℕ → ℕ) where
  -- Any two amounts of fuel that are not below the first number give the same digits.
  digits-enough :
      (fuel more x y : ℕ) → x ≤ fuel → x ≤ more → digits rest op fuel x y ≡ digits rest op more x y
  digits-enough (suc fuel) (suc more) (suc x) y le le' =
      ap (λ (high : ℕ). high * 2 + op (suc x % 2) (y % 2))
        (digits-enough fuel more (suc x / 2) (y / 2) (omega arith) (omega arith))
  digits-enough (suc fuel) (suc more) zero y le le' = refl
  digits-enough (suc fuel) zero zero y le le' = refl
  digits-enough zero (suc more) zero y le le' = refl
  digits-enough zero zero zero y le le' = refl
  digits-enough (suc fuel) zero (suc x) y le le' = absurd (omega arith)
  digits-enough zero more (suc x) y le le' = absurd (omega arith)

  lowest_digit :
      (x y : ℕ)
      → bitwise rest op (suc x) y ≡ bitwise rest op (suc x / 2) (y / 2) * 2 + op (suc x % 2) (y % 2)
  lowest_digit x y =
      let enough = digits-enough x (suc x / 2) (suc x / 2) (y / 2) (omega arith) (le_refl _) in
      ap (λ (high : ℕ). high * 2 + op (suc x % 2) (y % 2)) enough

pub bit_or_step : (x y : ℕ) → bit_or x y ≡ bit_or (x / 2) (y / 2) * 2 + max (x % 2) (y % 2)
bit_or_step zero y = simp bit_or-bitwise (omega arith)
bit_or_step (suc n) y = simp bit_or-bitwise (lowest_digit (λ y. y) max n y)

differ-zero : (y : ℕ) → differ 0 y ≡ y
differ-zero y = refl

pub bit_and_step : (x y : ℕ) → bit_and x y ≡ bit_and (x / 2) (y / 2) * 2 + min (x % 2) (y % 2)
bit_and_step zero y = simp bit_and-bitwise (omega arith)
bit_and_step (suc n) y = simp bit_and-bitwise (lowest_digit (λ y. 0) min n y)

pub zero-bit_and : (b : ℕ) → bit_and 0 b ≡ 0
zero-bit_and b = bit_and-bitwise 0 b

zero-bit_or : (b : ℕ) → bit_or 0 b ≡ b
zero-bit_or b = bit_or-bitwise 0 b

bit_and-zero_below : (n a : ℕ) → a ≤ n → bit_and a 0 ≡ 0
bit_and-zero_below n zero h = refl
bit_and-zero_below zero (suc a) h = absurd (omega arith)
bit_and-zero_below (suc n) (suc a) h =
    omega (arith, bit_and_step (suc a) 0, bit_and-zero_below n (suc a / 2) (omega arith))

pub bit_and-zero : (a : ℕ) → bit_and a 0 ≡ 0
bit_and-zero a = bit_and-zero_below a a (le_refl a)

pub zero-bit_or_zero : (a b : ℕ) → a ≡ 0 → b ≡ 0 → bit_or a b ≡ 0
zero-bit_or_zero a b p q = rw p (zero-bit_or b ∙ q)

pub bit_xor_step : (a b : ℕ) → bit_xor a b ≡ bit_xor (a / 2) (b / 2) * 2 + differ (a % 2) (b % 2)
bit_xor_step zero b = simp bit_xor-bitwise (omega (arith, differ-zero (b % 2)))
bit_xor_step (suc a) b = simp bit_xor-bitwise (lowest_digit (λ y. y) differ a b)

pub differ_zero : (d : ℕ) → differ d 0 ≡ d
differ_zero zero = refl
differ_zero (suc d) = refl

bit_xor-zero_below : (n a : ℕ) → a ≤ n → bit_xor a 0 ≡ a
bit_xor-zero_below n zero h = refl
bit_xor-zero_below zero (suc a) h = absurd (omega arith)
bit_xor-zero_below (suc n) (suc a) h = omega (
  arith,
  bit_xor_step (suc a) 0,
  differ_zero (suc a % 2),
  bit_xor-zero_below n (suc a / 2) (omega arith),
)

pub bit_xor-zero : (a : ℕ) → bit_xor a 0 ≡ a
bit_xor-zero a = bit_xor-zero_below a a (le_refl a)

pub differ_bit : (d : ℕ) → differ d 1 ≡ (if d == 0 then 1 else d - 1)
differ_bit zero = refl
differ_bit (suc zero) = refl
differ_bit (suc (suc d)) = ground arith

bit_or-zero_below : (n a : ℕ) → a ≤ n → bit_or a 0 ≡ a
bit_or-zero_below n zero h = refl
bit_or-zero_below zero (suc a) h = absurd (omega arith)
bit_or-zero_below (suc n) (suc a) h =
    omega (arith, bit_or_step (suc a) 0, bit_or-zero_below n (suc a / 2) (omega arith))

pub bit_or-zero : (a : ℕ) → bit_or a 0 ≡ a
bit_or-zero a = bit_or-zero_below a a (le_refl a)

pub bit_or-double : (x y : ℕ) → bit_or x (y * 2) ≡ bit_or (x / 2) y * 2 + x % 2
bit_or-double x y =
    let half : y * 2 / 2 ≡ y = omega arith in
    let low : max (x % 2) (y * 2 % 2) ≡ x % 2 = omega arith in
    bit_or_step x (y * 2)
    ∙ ap (λ h. bit_or (x / 2) h * 2 + max (x % 2) (y * 2 % 2)) half
    ∙ ap (λ d. bit_or (x / 2) y * 2 + d) low

-- A number of four bits is combined with one above them.
pub bit_or-nibble : (x y : ℕ) → x < 16 → bit_or x (y * 16) ≡ x + y * 16
bit_or-nibble x y lt =
    let zero_ : bit_or (x / 2 / 2 / 2 / 2) y ≡ y =
      ap (λ h. bit_or h y) {y = 0} (omega arith) ∙ zero-bit_or y in
    let e : y * 16 ≡ y * 2 * 2 * 2 * 2 = omega arith in
    rw e (
      omega (
        arith,
        zero_,
        bit_or-double x (y * 2 * 2 * 2),
        bit_or-double (x / 2) (y * 2 * 2),
        bit_or-double (x / 2 / 2) (y * 2),
        bit_or-double (x / 2 / 2 / 2) y,
      ))
