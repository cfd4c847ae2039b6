-- ===== src/Util/StrUtil/Text.antt =====
-- kernel/util/str_util.cpp: the text that `dec` and `hex` write.
use tinylittleos.Common.{
  ℕ, ◌+◌, ◌-◌, ◌/◌, ◌%◌, ◌^◌, ◌<◌, ◌≤◌, ◌≡◌, ◌≢◌, ◌⊎◌, refl, ap, ◌∙◌, ◌&&◌, ◌==◌, leb, ltb,
  if◌then◌else◌, arith, Bool-cases, inl, inr,
}
use tinylittleos.Common.Run.{Returns}
use tinylittleos.Util.Cstr.{Memory}
use tinylittleos.Util.StrUtil.{reverse, finish, zero_text, hex_char, dec, hex}
use tinylittleos.Util.StrUtil.Digits.{
  Writes, dec_char, dec_digits-Writes, hex_digits-Writes, reverse-bytes,
}

-- At `out` stands the number to the base: `r.0` digits, the highest first and not 0 unless it is
-- the only one, and a zero byte; no other byte changes.
pub record Shows (base : ℕ) (char : ℕ → ℕ) (val out : ℕ) (m : Memory) (r : ℕ × Memory)
    : Type 0 where
  pub below : val < base ^ r.0
  pub above : (k : ℕ) × (r.0 ≡ k + 1) × ((k ≡ 0) ⊎ (base ^ k ≤ val))
  pub digits : (i : ℕ) → i < r.0 → r.1 (out + i) ≡ char (val / base ^ (r.0 - 1 - i) % base)
  pub end : r.1 (out + r.0) ≡ 0
  pub others : (x : ℕ) → (x < out) ⊎ (out + r.0 < x) → r.1 x ≡ m x

finish-Shows :
    (base : ℕ) (char : ℕ → ℕ) (val out : ℕ) (m : Memory) (r : ℕ × Memory)
    → val ≢ 0
    → Writes base char val 0 out m r
    → Shows base char val out m (finish out r)
unfolding finish
finish-Shows base char val out m r ne w = record {
  below = rw len w.below;
  above = first w.above;
  digits = λ i lt. ground (
    arith,
    turned (out + i),
    ap r.1 {x = out + (r.0 - 1 - (out + i - out))} {y = out + (r.0 - 1 - i)},
    w.bytes (out + (r.0 - 1 - i)),
    ap (λ e. char (val / base ^ e % base)) {x = out + (r.0 - 1 - i) - (out + 0)} {y = r.0 - 1 - i},
    len,
  );
  end = ground arith;
  others = λ x h. ground (arith, turned x, w.bytes x, len, h);
}
  where
    len : r.0 ≡ w.n
    len = omega (arith, w.length)

    turned :
        (x : ℕ)
        → reverse (r.0 / 2) 0 r.0 out r.1 x ≡ (
            if leb (out + 0) x && ltb x (out + (r.0 - 0))
            then r.1 (out + (r.0 - 1 - (x - out)))
            else r.1 x)
    turned x = reverse-bytes (r.0 / 2) 0 r.0 out r.1 (omega arith) x

    first :
        ((val ≡ 0) × (w.n ≡ 0)) ⊎ ((k : ℕ) × (w.n ≡ k + 1) × (base ^ k ≤ val))
        → (k : ℕ) × (r.0 ≡ k + 1) × ((k ≡ 0) ⊎ (base ^ k ≤ val))
    first (inl e) = absurd (ne e.0)
    first (inr (k, e, le)) = (k, len ∙ e, inr le)

zero_text-Shows :
    (base : ℕ) (char : ℕ → ℕ) (out : ℕ) (m : Memory)
    → 0 < base ^ 1
    → char (0 / base ^ 0 % base) ≡ 48
    → Shows base char 0 out m (zero_text out m)
zero_text-Shows base char out m pos zero_char = record {
  below = pos;
  above = (0, refl, inl refl);
  digits = λ i lt.
      ground (arith, zero_char, ap (λ e. char (0 / base ^ e % base)) {x = 1 - 1 - i} {y = 0});
  end = ground arith;
  others = λ x h. ground (arith, h);
}

-- `dec(uint)` writes the number in decimal, with as many digits as it needs.
pub dec-Shows :
    (val out : ℕ) (m : Memory)
    → val < 2 ^ 32
    → Returns (dec val out m) (Shows 10 dec_char val out m)
unfolding dec
dec-Shows val out m h = elim (Bool-cases (val == 0)) [
  | inl none ↦
      let e : val ≡ 0 = ground arith in
      (zero_text out m, rw none, rw e (zero_text-Shows 10 dec_char out m (omega arith) refl))
  | inr some ↦
      let (r, run, w) = dec_digits-Writes 32 val 0 out m (omega arith) in
      (finish out r, rw (some, run), finish-Shows 10 dec_char val out m r (ground arith) w)
]

-- `hex` writes the number in hexadecimal, with as many digits as it needs.
pub hex-Shows :
    (val out : ℕ) (m : Memory)
    → val < 2 ^ 32
    → Returns (hex val out m) (Shows 16 hex_char val out m)
unfolding hex
hex-Shows val out m h = elim (Bool-cases (val == 0)) [
  | inl none ↦
      let e : val ≡ 0 = ground arith in
      (zero_text out m, rw none, rw e (zero_text-Shows 16 hex_char out m (omega arith) refl))
  | inr some ↦
      let (r, run, w) = hex_digits-Writes 32 val 0 out m (omega arith) in
      (finish out r, rw (some, run), finish-Shows 16 hex_char val out m r (ground arith) w)
]
