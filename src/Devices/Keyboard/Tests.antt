-- ===== src/Devices/Keyboard/Tests.antt =====
-- kernel/devices/keyboard.cpp with the left shift key down.
use tinylittleos.Common.{◌≡◌, refl, some, [], ◌∷◌, arith, replicate}
use tinylittleos.Common.Run.{Returns, Returns-value, read, write}
use tinylittleos.Ds.Bitset.{Bitset, empty, set_bit}
use tinylittleos.Ds.Bitset.Laws.{IsWords, set_bit-Updates, empty-IsWords}
use tinylittleos.Devices.Keyboard.{on_scan_code, shown}
use tinylittleos.Devices.Keyboard.Keys.{Types, on_scan_code-Types}

abbrev shift_down : Bitset
shift_down = record { m_set = 0 ∷ 1024 ∷ 0 ∷ 0 ∷ [] }

shift_down-IsWords : IsWords 4 shift_down
unfolding set_bit empty replicate read write
shift_down-IsWords =
    (Returns-value (set_bit-Updates 4 (empty 128) 42 (empty-IsWords 128) (omega arith)) shift_down
      refl).words

on_scan_code-Types_example : Returns (on_scan_code 30 shift_down) (Types 30 shift_down)
on_scan_code-Types_example = on_scan_code-Types 30 (omega arith) shift_down shift_down-IsWords

-- The key of "a" gives "A".
capital_a : Returns (on_scan_code 30 shift_down) λ r. r.1 ≡ some 65
unfolding on_scan_code set_bit read write shown
capital_a = (_, refl, refl)
