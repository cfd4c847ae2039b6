-- ===== src/Util/StrUtil.antt =====
-- kernel/util/str_util.cpp: `dec` and `hex` write a number as text. `out` is the address of the
-- buffer, and the result the length of the text. The loop over the digits runs on 32 units of
-- fuel, which is enough for any number below 2 to the power 32.
pub mod Digits
pub mod Text
mod Tests
use tinylittleos.Common.{ℕ, zero, suc, ◌+◌, ◌-◌, ◌/◌, ◌%◌, ◌^◌, bit_and, ◌==◌, ltb, if◌then◌else◌}
use tinylittleos.Common.Run.{Run, ok, fault, out_of_fuel, undefined, ◌>>=◌}
use tinylittleos.Util.Cstr.{Memory}

-- `out[i] = c`
abbrev pub put : ℕ → ℕ → Memory → Memory
put a c m x = if x == a then c else m x

unfoldable pub dec_digits : (fuel val i out : ℕ) → Memory → Run (ℕ × Memory)
dec_digits zero val i out m = if val == 0 then ok (i, m) else fault out_of_fuel
dec_digits (suc fuel) val i out m =
    let rest = dec_digits fuel (val / 10) (i + 1) out (put (out + i) (48 + val % 10) m) in
    if val == 0 then ok (i, m) else rest

-- `'0' + remainder` or `('a' - 10) + remainder`
abbrev pub hex_char : ℕ → ℕ
hex_char remainder = if ltb remainder 10 then 48 + remainder else 87 + remainder

unfoldable pub hex_digits : (fuel val i out : ℕ) → Memory → Run (ℕ × Memory)
hex_digits zero val i out m = if val == 0 then ok (i, m) else fault out_of_fuel
hex_digits (suc fuel) val i out m =
    let rest =
      hex_digits fuel (val / 2 ^ 4) (i + 1) out (put (out + i) (hex_char (bit_and val 0b1111)) m) in
    if val == 0 then ok (i, m) else rest

-- "reverse the string", from byte `j` on.
unfoldable pub reverse : (left j i out : ℕ) → Memory → Memory
reverse zero j i out m = m
reverse (suc left) j i out m =
    reverse left (j + 1) i out
      (put (out + (i - j - 1)) (m (out + j)) (put (out + j) (m (out + (i - j - 1))) m))

-- The end of the functions: the text is reversed and gets its zero byte.
unfoldable pub finish : (out : ℕ) → ℕ × Memory → ℕ × Memory
unfolding reverse
finish out (i, m) = (i, put (out + i) 0 (reverse (i / 2) 0 i out m))

-- "0"
abbrev pub zero_text : (out : ℕ) → Memory → ℕ × Memory
zero_text out m = (1, put (out + 1) 0 (put out 48 m))

-- `dec(uint)`
unfoldable pub dec : (val out : ℕ) → Memory → Run (ℕ × Memory)
dec val out m =
    if val == 0 then ok (zero_text out m) else do r ← dec_digits 32 val 0 out m; ok (finish out r)

-- `dec(int)`, of the 32 bits of the number. The negation of the smallest number is undefined.
unfoldable pub dec_int : (val out : ℕ) → Memory → Run (ℕ × Memory)
unfolding dec
dec_int val out m =
    if ltb val (2 ^ 31) then dec val out m else if val == 2 ^ 31 then fault undefined else do
      (i, m') ← dec_digits 32 (2 ^ 32 - val) 0 out m
      ok (finish out (i + 1, put (out + i) 45 m'))

unfoldable pub hex : (val out : ℕ) → Memory → Run (ℕ × Memory)
hex val out m =
    if val == 0 then ok (zero_text out m) else do r ← hex_digits 32 val 0 out m; ok (finish out r)
