-- ===== src/Ds/Bitset/Loops.antt =====
-- kernel/util/ds/bitset.hpp: the loops over words, and what a word says of its bits.
use tinylittleos.Common.{
  ℕ, zero, suc, ◌+◌, ◌-◌, ◌/◌, ◌%◌, ◌^◌, ◌<◌, ◌≤◌, ◌≡◌, refl, ap, ap₂, ◌∙◌, arith, ◌==◌,
  if◌then◌else◌, length, get_or, set, List, inl, inr, ◌↔◌, Bool-cases, ltb, Bool, true, false,
  length-set, get_or-set, bit_and,
}
use tinylittleos.Common.Bits.{bit_at, bit_at-lt, bit_at_ext, bit_at-and, bit_and-le, bit_at-ones}
use tinylittleos.Common.Run.{Returns, read-ok, write-ok}
use tinylittleos.Ds.Bitset.{Bitset, fill, all_equal}
use tinylittleos.Ds.Bitset.Laws.{contains}

-- The words from `i` on, `left` of them, are `v` in the result; the others are kept.
pub record Filled (v left i : ℕ) (words out : List ℕ) : Type 0 where
  pub size : length out ≡ length words
  pub value :
      (k : ℕ)
      → get_or out k 0
        ≡ (if ltb k i then get_or words k 0 else if ltb k (i + left) then v else get_or words k 0)

pub fill-Filled :
    (v left i : ℕ) (words : List ℕ)
    → i + left ≤ length words
    → Returns (fill v left i words) (Filled v left i words)
unfolding fill
fill-Filled v zero i words h = (words, refl, record { size = refl; value = λ k. ground arith })
fill-Filled v (suc left) i words h =
    let (out, run, f) =
      fill-Filled v left (i + 1) (set words i v) (omega (arith, length-set words i v)) in
    (
      out,
      rw (write-ok words i v (omega arith)) run,
      record {
        size = f.size ∙ length-set words i v;
        value = λ k. ground (arith, f.value k, get_or-set words i k v 0);
      },
    )

-- The loop returns whether all those words are `v`.
abbrev pub Agrees : ℕ → ℕ → ℕ → List ℕ → Bool → Type 0
Agrees v left i words b = (b ≡ true) ↔ ((k : ℕ) → i ≤ k → k < i + left → get_or words k 0 ≡ v)

pub all_equal-Agrees :
    (v left i : ℕ) (words : List ℕ)
    → i + left ≤ length words
    → Returns (all_equal v left i words) (Agrees v left i words)
unfolding all_equal
all_equal-Agrees v zero i words h = (true, refl, ((λ _ k p q. absurd (omega arith)), λ _. refl))
all_equal-Agrees v (suc left) i words h = elim (Bool-cases (get_or words i 0 == v)) [
  | inl same ↦
      let (b, run, a) = all_equal-Agrees v left (i + 1) words (omega arith) in
      (
        b,
        rw (read-ok words i 0 (omega arith), same, all_equal) run,
        (
          λ e k p q. ground (arith, a.0 e k),
          λ all. a.1 (λ k p q. all k (omega arith) (omega arith)),
        ),
      )
  | inr differs ↦ (
    false,
    rw (read-ok words i 0 (omega arith), differs, all_equal),
    (λ e. cc, λ all. ground (arith, all i (omega arith) (omega arith))),
  )
]

-- A whole word, and the low digits of a word, compared with a word whose digits are all `c`.
pub word_iff :
    (c v word : ℕ)
    → v < 2 ^ 32
    → word < 2 ^ 32
    → ((i : ℕ) → i < 32 → bit_at v i ≡ c)
    → (word ≡ v) ↔ ((i : ℕ) → i < 32 → bit_at word i ≡ c)
word_iff c v word v_fits fits d = (
  λ e i lt. ap (λ x. bit_at x i) e ∙ d i lt,
  λ all. bit_at_ext 32 word v fits v_fits (λ i lt. ground (arith, all i lt, d i lt)),
)

pub mask_iff :
    (c r v word : ℕ)
    → c < 2
    → r < 32
    → v < 2 ^ 32
    → word < 2 ^ 32
    → ((i : ℕ) → bit_at v i ≡ (if ltb i r then c else 0))
    → (bit_and word (2 ^ r - 1) ≡ v) ↔ ((i : ℕ) → i < r → bit_at word i ≡ c)
mask_iff c r v word bit lt v_fits fits d = (
  λ e i below. ground (
    arith,
    ap (λ x. bit_at x i) e,
    bit_at-and word (2 ^ r - 1) i,
    bit_at-ones r i,
    d i,
    bit_at-lt word i,
  ),
  λ all. bit_at_ext 32 _ v (omega (arith, bit_and-le 32 word (2 ^ r - 1) fits)) v_fits (λ i _.
      ground (arith, bit_at-and word (2 ^ r - 1) i, bit_at-ones r i, d i, all i, bit_at-lt word i)),
)

pub contains_at :
    (s : Bitset) (j k i : ℕ)
    → j / 2 ^ 5 ≡ k
    → j % 2 ^ 5 ≡ i
    → contains s j ≡ bit_at (get_or s.m_set k 0) i
unfolding contains
contains_at s j k i p q = ap₂ (λ a b. bit_at (get_or s.m_set a 0) b) p q
