-- ===== src/Common/Words.antt =====
-- An array of 32-bit words as a set of numbers: number `j` is digit `j % 32` of word `j / 32`.
use tinylittleos.Common.Arrays.{length, get_or, set, get_or-set}
use tinylittleos.Common.Bits.{bit_at, bit_at-lt, bit_at-zero, bit_at_ext}
use tinylittleos.Common.Tests.{◌==◌, if◌then◌else◌}
use Prim.Native.Nat.{ℕ, ◌+◌, ◌*◌, ◌/◌, ◌%◌, ◌^◌, ◌<◌}
use mathlib.Core.Path.{◌≡◌, sym, ap, ap₂, ◌∙◌}
use mathlib.Core.Logic.{◌↔◌}
use mathlib.Core.List.{List}
use native.Mathlib.Omega.{arith}

unfoldable pub digit : List ℕ → ℕ → ℕ
digit words j = bit_at (get_or words (j / 2 ^ 5) 0) (j % 2 ^ 5)

pub digit-lt : (words : List ℕ) (j : ℕ) → digit words j < 2
unfolding digit
digit-lt words j = bit_at-lt (get_or words (j / 2 ^ 5) 0) (j % 2 ^ 5)

-- A word is replaced by one that differs at most in the digit of `index`, which becomes `v`.
pub digit-set :
    (words : List ℕ) (index word v : ℕ)
    → index / 2 ^ 5 < length words
    → ((i : ℕ)
        → i < 32
        → bit_at word i
          ≡ (if i == index % 2 ^ 5 then v else bit_at (get_or words (index / 2 ^ 5) 0) i))
    → (j : ℕ) → digit (set words (index / 2 ^ 5) word) j ≡ (if j == index then v else digit words j)
unfolding digit
digit-set words index word v h e j =
    ground (arith, get_or-set words (index / 2 ^ 5) (j / 2 ^ 5) word 0, e (j % 2 ^ 5))

pub digit_at :
    (words : List ℕ) (j k i : ℕ)
    → j / 2 ^ 5 ≡ k
    → j % 2 ^ 5 ≡ i
    → digit words j ≡ bit_at (get_or words k 0) i
unfolding digit
digit_at words j k i p q = ap₂ (λ a b. bit_at (get_or words a 0) b) p q

-- All words are 0 exactly if no number is in the set.
pub digit-zero_iff :
    (words : List ℕ)
    → ((k : ℕ) → get_or words k 0 < 2 ^ 32)
    → ((k : ℕ) → get_or words k 0 ≡ 0) ↔ ((j : ℕ) → digit words j ≡ 0)
unfolding digit
digit-zero_iff words fits = (
  λ zeros j. ap (λ w. bit_at w (j % 2 ^ 5)) (zeros (j / 2 ^ 5)) ∙ bit_at-zero (j % 2 ^ 5),
  λ none k. bit_at_ext 32 (get_or words k 0) 0 (fits k) (omega arith) (λ i lt.
      sym (digit_at words (k * 32 + i) k i (omega arith) (omega arith))
      ∙ none (k * 32 + i)
      ∙ sym (bit_at-zero i)),
)
