-- ===== src/Devices/Keyboard.antt =====
-- kernel/devices/keyboard.cpp: which keys are down, and the character that a key gives. The result
-- of the handler has the character that goes to `tty::put`, if any. The words of `is_down` change
-- by the same expressions as those of a bitset.
pub mod Layout
pub mod Keys
mod Tests
use tinylittleos.Common.{
  ℕ, ◌-◌, ◌^◌, bit_and, bit_xor, Bool, true, false, not, ◌&&◌, List, [], ◌∷◌, Option, none, some,
  ◌==◌, leb, if◌then◌else◌,
}
use tinylittleos.Common.Run.{Run, ok, ◌>>=◌, read}
use tinylittleos.Ds.Bitset.{Bitset, set_bit, clear_bit}

-- The characters of the keys, 0 where a key has none.
abbrev pub kbd_us : List ℕ
kbd_us =
    0 ∷ 27 ∷ 49 ∷ 50 ∷ 51 ∷ 52 ∷ 53 ∷ 54 ∷ 55 ∷ 56 ∷ 57 ∷ 48 ∷ 45 ∷ 61 ∷ 8 ∷ 9 ∷ 113 ∷ 119 ∷ 101
    ∷ 114 ∷ 116 ∷ 121 ∷ 117 ∷ 105 ∷ 111 ∷ 112 ∷ 91 ∷ 93 ∷ 10 ∷ 0 ∷ 97 ∷ 115 ∷ 100 ∷ 102 ∷ 103 ∷ 104
    ∷ 106 ∷ 107 ∷ 108 ∷ 59 ∷ 39 ∷ 96 ∷ 0 ∷ 92 ∷ 122 ∷ 120 ∷ 99 ∷ 118 ∷ 98 ∷ 110 ∷ 109 ∷ 44 ∷ 46 ∷ 47
    ∷ 0 ∷ 42 ∷ 0 ∷ 32 ∷ 0 ∷ 0 ∷ 0 ∷ 0 ∷ 0 ∷ 0 ∷ 0 ∷ 0 ∷ 0 ∷ 0 ∷ 0 ∷ 0 ∷ 0 ∷ 0 ∷ 0 ∷ 0 ∷ 45 ∷ 0 ∷ 0
    ∷ 0 ∷ 43 ∷ 0 ∷ 0 ∷ 0 ∷ 0 ∷ 0 ∷ 0 ∷ 0 ∷ 0 ∷ 0 ∷ 0 ∷ 0 ∷ 0 ∷ 0 ∷ 0 ∷ 0 ∷ 0 ∷ 0 ∷ 0 ∷ 0 ∷ 0 ∷ 0 ∷ 0
    ∷ 0 ∷ 0 ∷ 0 ∷ 0 ∷ 0 ∷ 0 ∷ 0 ∷ 0 ∷ 0 ∷ 0 ∷ 0 ∷ 0 ∷ 0 ∷ 0 ∷ 0 ∷ 0 ∷ 0 ∷ 0 ∷ 0 ∷ 0 ∷ 0 ∷ 0 ∷ 0 ∷ 0
    ∷ 0 ∷ 0 ∷ 0 ∷ []

-- What is put for a character of the table: letters become capitals while shift is down.
unfoldable pub shown : (us_char shift : ℕ) → Option ℕ
shown us_char shift =
    if us_char == 0
    then none
    else if leb 97 us_char && leb us_char 122 && not (shift == 0)
    then some (us_char - 32)
    else some us_char

unfoldable pub on_scan_code : (scan_code : ℕ) → Bitset → Run (Bitset × Option ℕ)
unfolding shown
on_scan_code scan_code is_down =
    if not (bit_and scan_code 0x80 == 0)
    then (do down ← clear_bit is_down (bit_xor scan_code 0x80); ok (down, none))
    else (do
      down ← set_bit is_down scan_code
      us_char ← read kbd_us scan_code
      word ← read down.m_set 1
      ok (down, shown us_char (bit_and word 1024)))
