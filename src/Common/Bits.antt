-- ===== src/Common/Bits.antt =====
-- The binary digits of machine words: what `&`, `|`, `~` and `__builtin_ctz` do to each digit.
mod Step
pub use Step.{bit_or-nibble}
use Step.{
  bit_or_step, bit_or-zero, bit_and_step, bit_xor_step, zero-bit_and, bit_and-zero,
  zero-bit_or_zero, bit_xor-zero, differ_bit, differ_zero,
}
use Prim.Native.Nat.{ℕ, zero, suc, ◌+◌, ◌-◌, ◌*◌, ◌/◌, ◌%◌, ◌^◌, ◌≤◌, ◌<◌, min, max}
use Prim.Native.Nat.{bit_and, bit_or, bit_xor}
use mathlib.Core.Path.{◌≡◌, refl, sym, ap, ap₂, ◌∙◌}
use native.Mathlib.Nat.{pow-suc, one-le-pow, mul_comm, mod_def, mul-div-le, div-div-eq-div-mul}
use native.Mathlib.Omega.{arith}
use mathlib.Core.Bool.{true, false, not}
use mathlib.Core.Logic.{◌≢◌, inl, inr}
use tinylittleos.Common.Tests.{ltb, ◌==◌, if◌then◌else◌, Bool-cases}

-- Digit `i` of `x`, 0 or 1.
unfoldable pub bit_at : ℕ → ℕ → ℕ
bit_at x zero = x % 2
bit_at x (suc i) = bit_at (x / 2) i

-- `~x` on words of `w` bits.
abbrev pub not_w : ℕ → ℕ → ℕ
not_w w x = 2 ^ w - 1 - x

pub bit_at-lt : (x i : ℕ) → bit_at x i < 2
unfolding bit_at
bit_at-lt x zero = omega arith
bit_at-lt x (suc i) = bit_at-lt (x / 2) i

pub bit_at-zero : (i : ℕ) → bit_at 0 i ≡ 0
unfolding bit_at
bit_at-zero zero = refl
bit_at-zero (suc i) = bit_at-zero i

pub bit_at-and : (x y i : ℕ) → bit_at (bit_and x y) i ≡ min (bit_at x i) (bit_at y i)
unfolding bit_at
bit_at-and x y zero = omega (arith, bit_and_step x y)
bit_at-and x y (suc i) =
    ap (λ n. bit_at n i) (omega (arith, bit_and_step x y)) ∙ bit_at-and (x / 2) (y / 2) i

pub bit_at-or : (x y i : ℕ) → bit_at (bit_or x y) i ≡ max (bit_at x i) (bit_at y i)
unfolding bit_at
bit_at-or x y zero = omega (arith, bit_or_step x y)
bit_at-or x y (suc i) =
    ap (λ n. bit_at n i) (omega (arith, bit_or_step x y)) ∙ bit_at-or (x / 2) (y / 2) i

half-pow : (k : ℕ) → 2 ^ suc k / 2 ≡ 2 ^ k
half-pow k = omega (arith, pow-suc 2 k)

half-mask : (k : ℕ) → (2 ^ suc k - 1) / 2 ≡ 2 ^ k - 1
half-mask k = omega (arith, pow-suc 2 k, one-le-pow k 2)

pub bit_at-pow : (k i : ℕ) → bit_at (2 ^ k) i ≡ (if i == k then 1 else 0)
unfolding bit_at
bit_at-pow zero zero = refl
bit_at-pow zero (suc i) = ground (arith, bit_at-zero i)
bit_at-pow (suc k) zero = ground (arith, pow-suc 2 k)
bit_at-pow (suc k) (suc i) = ap (λ n. bit_at n i) (half-pow k) ∙ ground (arith, bit_at-pow k i)

pub bit_at-not : (w x i : ℕ) → x < 2 ^ w → i < w → bit_at (not_w w x) i ≡ 1 - bit_at x i
unfolding bit_at
bit_at-not zero x i h lt = absurd (omega arith)
bit_at-not (suc w) x zero h lt = omega (arith, pow-suc 2 w, one-le-pow w 2)
bit_at-not (suc w) x (suc i) h lt =
    ap (λ n. bit_at n i) (omega (arith, pow-suc 2 w, one-le-pow w 2))
    ∙ bit_at-not w (x / 2) i (omega (arith, pow-suc 2 w)) (omega arith)

-- A word is its digits.
pub bit_at_ext :
    (w x y : ℕ) → x < 2 ^ w → y < 2 ^ w → ((i : ℕ) → i < w → bit_at x i ≡ bit_at y i) → x ≡ y
unfolding bit_at
bit_at_ext zero x y p q h = omega arith
bit_at_ext (suc w) x y p q h = omega (
  arith,
  h 0 (omega arith),
  bit_at_ext w (x / 2) (y / 2) (omega (arith, pow-suc 2 w)) (omega (arith, pow-suc 2 w))
      (λ i lt. h (suc i) (omega arith)),
)

-- A mask of `k` ones.
pub bit_at-ones : (k i : ℕ) → bit_at (2 ^ k - 1) i ≡ (if ltb i k then 1 else 0)
unfolding bit_at
bit_at-ones zero i = ground (arith, bit_at-zero i)
bit_at-ones (suc k) zero = ground (arith, pow-suc 2 k, one-le-pow k 2)
bit_at-ones (suc k) (suc i) = ap (λ n. bit_at n i) (half-mask k) ∙ ground (arith, bit_at-ones k i)

pub bit_at_above : (w x i : ℕ) → x < 2 ^ w → w ≤ i → bit_at x i ≡ 0
unfolding bit_at
bit_at_above zero x i h le = ap (λ n. bit_at n i) (omega arith) ∙ bit_at-zero i
bit_at_above (suc w) x zero h le = absurd (omega arith)
bit_at_above (suc w) x (suc i) h le =
    bit_at_above w (x / 2) i (omega (arith, pow-suc 2 w)) (omega arith)

-- `__builtin_ctz` of a word of `w` bits: the number of zero digits below the lowest one.
unfoldable pub ctz : ℕ → ℕ → ℕ
ctz zero x = 0
ctz (suc w) x = elim (x % 2 == 1) [ true ↦ 0 | false ↦ suc (ctz w (x / 2)) ]

-- On a word that is not 0 it is the lowest digit that is 1.
pub record IsLowest (w x c : ℕ) : Type 0 where
  pub within : c < w
  pub one : bit_at x c ≡ 1
  pub below : (j : ℕ) → j < c → bit_at x j ≡ 0

pub ctz-IsLowest : (w x : ℕ) → x ≢ 0 → x < 2 ^ w → IsLowest w x (ctz w x)
unfolding ctz bit_at
ctz-IsLowest zero x ne h = absurd (omega arith)
ctz-IsLowest (suc w) x ne h = elim (Bool-cases (x % 2 == 1)) [
  | inl odd ↦
      rw (odd, ctz)
        (record { within = omega arith; one = ground arith; below = λ j lt. absurd (omega arith) })
  | inr even ↦
      let ih = ctz-IsLowest w (x / 2) (ground arith) (omega (arith, pow-suc 2 w)) in
      rw (even, ctz)
        (record {
          within = omega (arith, ih.within);
          one = ih.one;
          below = below (ctz w (x / 2)) (ground arith) ih.below;
        })
]
  where
    below :
        (c : ℕ)
        → x % 2 ≡ 0
        → ((j : ℕ) → j < c → bit_at (x / 2) j ≡ 0)
        → (j : ℕ) → j < suc c
        → bit_at x j ≡ 0
    below c e ih zero lt = e
    below c e ih (suc j) lt = ih j (omega arith)

zero_of_lt : (x : ℕ) → x < 1 → x ≡ 0
zero_of_lt x h = omega arith

-- Words stay words.
pub bit_and-le : (w x y : ℕ) → x < 2 ^ w → bit_and x y ≤ x
bit_and-le zero x y h = omega (arith, ap (λ n. bit_and n y) (zero_of_lt x h), zero-bit_and y)
bit_and-le (suc w) x y h =
    omega (arith, bit_and_step x y, bit_and-le w (x / 2) (y / 2) (omega (arith, pow-suc 2 w)))

pub bit_or-lt : (w x y : ℕ) → x < 2 ^ w → y < 2 ^ w → bit_or x y < 2 ^ w
bit_or-lt zero x y p q = omega (arith, zero-bit_or_zero x y (omega arith) (omega arith))
bit_or-lt (suc w) x y p q = omega (
  arith,
  pow-suc 2 w,
  bit_or_step x y,
  bit_or-lt w (x / 2) (y / 2) (omega (arith, pow-suc 2 w)) (omega (arith, pow-suc 2 w)),
)

pub pow-lt : (w k : ℕ) → k < w → 2 ^ k < 2 ^ w
pow-lt zero k h = absurd (omega arith)
pow-lt (suc w) zero h = omega (arith, pow-suc 2 w, one-le-pow w 2)
pow-lt (suc w) (suc k) h = omega (arith, pow-suc 2 w, pow-suc 2 k, pow-lt w k (omega arith))

-- `x & (1 << i)` is not 0 exactly if digit `i` of `x` is 1.
pub bit_and-pow : (x i : ℕ) → bit_and x (2 ^ i) ≡ bit_at x i * 2 ^ i
unfolding bit_at
bit_and-pow x zero = omega (arith, bit_and_step x 1, bit_and-zero (x / 2))
bit_and-pow x (suc i) = omega (
  arith,
  bit_and_step x (2 ^ suc i),
  pow-suc 2 i,
  ap (bit_and (x / 2)) (half-pow i),
  bit_and-pow (x / 2) i,
  ap (λ (t : ℕ). bit_at (x / 2) i * t) (pow-suc 2 i),
)

nonzero-digit : (b p : ℕ) → b < 2 → 0 < p → not (b * p == 0) ≡ (b == 1)
nonzero-digit zero p h pos = ground arith
nonzero-digit (suc zero) p h pos = ground arith
nonzero-digit (suc (suc b)) p h pos = absurd (omega arith)

pub bit_and-test : (x i : ℕ) → not (bit_and x (2 ^ i) == 0) ≡ (bit_at x i == 1)
bit_and-test x i =
    rw (bit_and-pow x i)
      (nonzero-digit (bit_at x i) (2 ^ i) (bit_at-lt x i) (one-le-pow i 2 (omega arith)))

mod-double : (x d : ℕ) → x % (2 * d) ≡ x / 2 % d * 2 + x % 2
mod-double x d = omega (
  arith,
  mod_def x (2 * d),
  ap (λ (t : ℕ). 2 * d * t) (div-div-eq-div-mul x 2 d),
  mod_def (x / 2) d,
  mul-div-le (x / 2) d,
)

-- A mask of `k` ones keeps the remainder by `2 ^ k`.
pub bit_and_mask : (k x : ℕ) → bit_and x (2 ^ k - 1) ≡ x % 2 ^ k
bit_and_mask zero x = omega (arith, bit_and-zero x)
bit_and_mask (suc k) x =
    bit_and_step x (2 ^ suc k - 1)
    ∙ ap₂ (λ (a b : ℕ). a * 2 + b) (ap (bit_and (x / 2)) (half-mask k) ∙ bit_and_mask k (x / 2)) odd
    ∙ sym (mod-double x (2 ^ k))
    ∙ ap (λ (t : ℕ). x % t) (sym (pow-suc 2 k ∙ mul_comm (2 ^ k) 2))
  where
    odd : min (x % 2) ((2 ^ suc k - 1) % 2) ≡ x % 2
    odd = omega (arith, pow-suc 2 k, one-le-pow k 2)

-- `x ^ 1` is the other one of the pair that `x` is in.
pub bit_xor-one : (x : ℕ) → bit_xor x 1 ≡ (if x % 2 == 0 then x + 1 else x - 1)
bit_xor-one x = ground (arith, bit_xor_step x 1, bit_xor-zero (x / 2), differ_bit (x % 2))

-- The two lowest bits set.
pub bit_or-three : (x : ℕ) → bit_or x 3 / 4 ≡ x / 4
bit_or-three x = omega (arith, bit_or_step x 3, bit_or_step (x / 2) 1, bit_or-zero (x / 2 / 2))

-- The highest bit of a byte taken out.
pub bit_xor_high : (x : ℕ) → 128 ≤ x → x < 256 → bit_xor x 128 ≡ x - 128
bit_xor_high x lo hi =
    let top : bit_xor (x / 2 / 2 / 2 / 2 / 2 / 2 / 2) 1 ≡ 0 =
      ground (arith, bit_xor-one (x / 2 / 2 / 2 / 2 / 2 / 2 / 2)) in
    omega (
      arith,
      bit_xor_step x 128,
      bit_xor_step (x / 2) 64,
      bit_xor_step (x / 2 / 2) 32,
      bit_xor_step (x / 2 / 2 / 2) 16,
      bit_xor_step (x / 2 / 2 / 2 / 2) 8,
      bit_xor_step (x / 2 / 2 / 2 / 2 / 2) 4,
      bit_xor_step (x / 2 / 2 / 2 / 2 / 2 / 2) 2,
      top,
      differ_zero (x % 2),
      differ_zero (x / 2 % 2),
      differ_zero (x / 2 / 2 % 2),
      differ_zero (x / 2 / 2 / 2 % 2),
      differ_zero (x / 2 / 2 / 2 / 2 % 2),
      differ_zero (x / 2 / 2 / 2 / 2 / 2 % 2),
      differ_zero (x / 2 / 2 / 2 / 2 / 2 / 2 % 2),
    )
