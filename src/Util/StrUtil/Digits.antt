-- ===== src/Util/StrUtil/Digits.antt =====
-- kernel/util/str_util.cpp: the loops that write the digits of a number, lowest first, and the
-- reversal.
use tinylittleos.Common.{
  ℕ, zero, suc, ◌+◌, ◌-◌, ◌*◌, ◌/◌, ◌%◌, ◌^◌, ◌<◌, ◌≤◌, ◌≡◌, ◌≢◌, ◌⊎◌, refl, sym, ap, ◌∙◌, ◌&&◌,
  ◌==◌, leb, ltb, if◌then◌else◌, arith, Bool-cases, inl, inr,
}
use native.Mathlib.Nat.{pow-zero, pow-succ', div-div-eq-div-mul}
use tinylittleos.Common.Bits.{bit_and_mask}
use tinylittleos.Common.Run.{Returns}
use tinylittleos.Util.Cstr.{Memory}
use tinylittleos.Util.StrUtil.{put, dec_digits, hex_char, hex_digits, reverse}

-- The digits of `val` to the base, from byte `i` on, lowest first.
pub record Writes (base : ℕ) (char : ℕ → ℕ) (val i out : ℕ) (m : Memory) (r : ℕ × Memory)
    : Type 0 where
  pub n : ℕ
  pub length : r.0 ≡ i + n
  pub below : val < base ^ n
  pub above : ((val ≡ 0) × (n ≡ 0)) ⊎ ((k : ℕ) × (n ≡ k + 1) × (base ^ k ≤ val))
  pub bytes :
      (x : ℕ)
      → r.1 x ≡ (
          if leb (out + i) x && ltb x (out + i + n)
          then char (val / base ^ (x - (out + i)) % base)
          else m x)

module _ (base : ℕ) (char : ℕ → ℕ) (grow : (val p : ℕ) → val / base < p → val < base * p)
    (keep : (val p : ℕ) → p ≤ val / base → base * p ≤ val) where
  lowest : (val e : ℕ) → e ≡ 0 → val / base ^ e ≡ val
  lowest val e z = rw (z, pow-zero base) (omega arith)

  higher : (val a x : ℕ) → a < x → val / base / base ^ (x - (a + 1)) ≡ val / base ^ (x - a)
  higher val a x lt =
      div-div-eq-div-mul val base (base ^ (x - (a + 1)))
      ∙ ap (λ p. val / p) (sym (pow-succ' base (x - (a + 1))) ∙ ap (λ e. base ^ e) (omega arith))

  Writes-zero : (val i out : ℕ) (m : Memory) → val ≡ 0 → Writes base char val i out m (i, m)
  Writes-zero val i out m e = record {
    n = 0;
    length = omega arith;
    below = omega (arith, e, pow-zero base);
    above = inl (e, refl);
    bytes = λ x. ground arith;
  }

  Writes-suc :
      (val i out : ℕ) (m : Memory) (r : ℕ × Memory)
      → val ≢ 0
      → Writes base char (val / base) (i + 1) out (put (out + i) (char (val % base)) m) r
      → Writes base char val i out m r
  Writes-suc val i out m r ne w = record {
    n = suc w.n;
    length = omega (arith, w.length);
    below = omega (arith, grow val (base ^ w.n) w.below, pow-succ' base w.n);
    above = inr (first w.above);
    bytes = λ x.
        w.bytes x
        ∙ ground (
          arith,
          λ (z : x - (out + i) ≡ 0). ap (λ k. char (k % base)) (lowest val (x - (out + i)) z),
          λ (lt : out + i < x). ap (λ k. char (k % base)) (higher val (out + i) x lt),
          ap (λ a. char (val / base / base ^ (x - a) % base)) {x = out + (i + 1)} {y = out + i + 1},
        );
  }
    where
      first :
          ((val / base ≡ 0) × (w.n ≡ 0)) ⊎ ((k : ℕ) × (w.n ≡ k + 1) × (base ^ k ≤ val / base))
          → (k : ℕ) × (suc w.n ≡ k + 1) × (base ^ k ≤ val)
      first (inl e) = (0, omega (arith, e.1), omega (arith, ne, pow-zero base))
      first (inr (k, e, le)) =
          (suc k, omega (arith, e), omega (arith, keep val (base ^ k) le, pow-succ' base k))

grow10 : (val p : ℕ) → val / 10 < p → val < 10 * p
grow10 val p h = omega arith

keep10 : (val p : ℕ) → p ≤ val / 10 → 10 * p ≤ val
keep10 val p h = omega arith

grow16 : (val p : ℕ) → val / 16 < p → val < 16 * p
grow16 val p h = omega arith

keep16 : (val p : ℕ) → p ≤ val / 16 → 16 * p ≤ val
keep16 val p h = omega arith

abbrev pub dec_char : ℕ → ℕ
dec_char d = 48 + d

pub dec_digits-Writes :
    (fuel val i out : ℕ) (m : Memory)
    → val < 10 ^ fuel
    → Returns (dec_digits fuel val i out m) (Writes 10 dec_char val i out m)
unfolding dec_digits
dec_digits-Writes zero val i out m h =
    let e : val ≡ 0 = omega arith in
    ((i, m), rw e, Writes-zero 10 dec_char grow10 keep10 val i out m e)
dec_digits-Writes (suc fuel) val i out m h = elim (Bool-cases (val == 0)) [
  | inl none ↦ (
    (i, m),
    rw (none, dec_digits),
    Writes-zero 10 dec_char grow10 keep10 val i out m (ground arith),
  )
  | inr some ↦
      let (r, run, w) =
        dec_digits-Writes fuel (val / 10) (i + 1) out (put (out + i) (48 + val % 10) m)
          (omega (arith, pow-succ' 10 fuel)) in
      (
        r,
        rw (some, dec_digits) run,
        Writes-suc 10 dec_char grow10 keep10 val i out m r (ground arith) w,
      )
]

pub hex_digits-Writes :
    (fuel val i out : ℕ) (m : Memory)
    → val < 16 ^ fuel
    → Returns (hex_digits fuel val i out m) (Writes 16 hex_char val i out m)
unfolding hex_digits
hex_digits-Writes zero val i out m h =
    let e : val ≡ 0 = omega arith in
    ((i, m), rw e, Writes-zero 16 hex_char grow16 keep16 val i out m e)
hex_digits-Writes (suc fuel) val i out m h = elim (Bool-cases (val == 0)) [
  | inl none ↦ (
    (i, m),
    rw (none, hex_digits),
    Writes-zero 16 hex_char grow16 keep16 val i out m (ground arith),
  )
  | inr some ↦
      let (r, run, w) =
        hex_digits-Writes fuel (val / 16) (i + 1) out (put (out + i) (hex_char (val % 16)) m)
          (omega (arith, pow-succ' 16 fuel)) in
      (
        r,
        rw (some, hex_digits, bit_and_mask 4 val) run,
        Writes-suc 16 hex_char grow16 keep16 val i out m r (ground arith) w,
      )
]

-- The bytes between `j` and its mirror image change places, all others stay.
pub reverse-bytes :
    (left j i out : ℕ) (m : Memory)
    → j + left ≡ i / 2
    → (x : ℕ)
    → reverse left j i out m x
      ≡ (if leb (out + j) x && ltb x (out + (i - j)) then m (out + (i - 1 - (x - out))) else m x)
unfolding reverse
reverse-bytes zero j i out m e x = ground (arith, ap m {x = x} {y = out + (i - 1 - (x - out))})
reverse-bytes (suc left) j i out m e x =
    reverse-bytes left (j + 1) i out _ (omega (arith, e)) x
    ∙ ground (
      arith,
      ap m {x = out + (i - j - 1)} {y = out + (i - 1 - (x - out))},
      ap m {x = out + j} {y = out + (i - 1 - (x - out))},
    )
