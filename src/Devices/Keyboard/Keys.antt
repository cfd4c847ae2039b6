-- ===== src/Devices/Keyboard/Keys.antt =====
-- kernel/devices/keyboard.cpp: what a scan code does.
use tinylittleos.Common.{
  ℕ, ◌%◌, ◌<◌, ◌≡◌, refl, ap, ◌∙◌, bit_and, bit_xor, true, false, not, Option, none, ◌==◌, leb,
  if◌then◌else◌, arith, get_or, length, Bool-cases, inl, inr,
}
use tinylittleos.Common.Bits.{bit_at, bit_and-test, bit_xor_high}
use tinylittleos.Common.Words.{digit}
use tinylittleos.Common.Run.{Returns, read-ok}
use tinylittleos.Ds.Bitset.{Bitset}
use tinylittleos.Ds.Bitset.Laws.{contains, IsWords, set_bit-Updates, clear_bit-Updates}
use tinylittleos.Devices.Keyboard.Layout.{typed, shown-typed}
use tinylittleos.Devices.Keyboard.{kbd_us, shown, on_scan_code}

table_length : length kbd_us ≡ 128
table_length = refl

up_test : (x : ℕ) → x < 256 → not (bit_and x 0x80 == 0) ≡ leb 128 x
unfolding bit_at
up_test x hi = bit_and-test x 7 ∙ ground arith

-- The key of the code goes up or down, and no other; a key that goes down gives what it types, with
-- shift while the left shift key (42) is down; a key that goes up gives none.
pub record Types (scan_code : ℕ) (is_down : Bitset) (r : Bitset × Option ℕ) : Type 0 where
  pub words : IsWords 4 r.0
  pub keys :
      (j : ℕ)
      → contains r.0 j ≡ (
          if j == scan_code % 128 then (if leb 128 scan_code then 0 else 1) else contains is_down j)
  pub char : r.1 ≡ (if leb 128 scan_code then none else typed (contains r.0 42 == 1) scan_code)

down_test : (word : ℕ) → not (bit_and word 1024 == 0) ≡ (bit_at word 10 == 1)
down_test word = bit_and-test word 10

module _ (scan_code : ℕ) (byte : scan_code < 256) (is_down : Bitset) (w : IsWords 4 is_down) where
  up-Types :
      (leb 128 scan_code) ≡ true
      → Returns (on_scan_code scan_code is_down) (Types scan_code is_down)
  unfolding on_scan_code
  up-Types up =
      let code : bit_xor scan_code 0x80 ≡ scan_code % 128 =
        bit_xor_high scan_code (ground arith) byte ∙ ground arith in
      let (t, run, u) =
        clear_bit-Updates 4 is_down (bit_xor scan_code 0x80) w (omega (arith, code)) in
      (
        (t, none),
        rw (up_test scan_code byte, up, run),
        record { words = u.words; keys = λ j. ground (arith, u.bits j, code); char = rw up },
      )

  down-Types :
      (leb 128 scan_code) ≡ false
      → Returns (on_scan_code scan_code is_down) (Types scan_code is_down)
  unfolding on_scan_code contains digit
  down-Types down =
      let code : scan_code ≡ scan_code % 128 = ground arith in
      let (t, run, u) = set_bit-Updates 4 is_down scan_code w (ground arith) in
      (
        (t, shown (get_or kbd_us scan_code 0) (bit_and (get_or t.m_set 1 0) 1024)),
        rw (
          up_test scan_code byte,
          down,
          run,
          read-ok kbd_us scan_code 0 (ground arith),
          read-ok t.m_set 1 0 (omega (arith, u.words.size)),
        ),
        record {
          words = u.words;
          keys = λ j. ground (arith, u.bits j, code, down);
          char = rw down (
              shown-typed scan_code (bit_and (get_or t.m_set 1 0) 1024) (ground arith)
              ∙ ap (λ b. typed b scan_code) (down_test (get_or t.m_set 1 0)));
        },
      )

  -- `on_scan_code` of a byte moves its key up or down and no other. A key that goes down gives what it
  -- types on an American keyboard, with the left shift key down a capital for a letter and the same for
  -- any other key, and nothing for a code without a character; a key that goes up gives nothing.
  pub on_scan_code-Types : Returns (on_scan_code scan_code is_down) (Types scan_code is_down)
  on_scan_code-Types = elim (Bool-cases (leb 128 scan_code)) [
    | inl up ↦ up-Types up
    | inr down ↦ down-Types down
  ]
