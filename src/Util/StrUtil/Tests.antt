-- ===== src/Util/StrUtil/Tests.antt =====
-- kernel/util/str_util.cpp: numbers written to address 1000.
use tinylittleos.Common.{◌≡◌, refl, arith}
use tinylittleos.Common.Run.{Returns}
use tinylittleos.Util.Cstr.{Memory}
use tinylittleos.Util.StrUtil.{dec, dec_int, dec_digits, reverse, finish}
use tinylittleos.Util.StrUtil.Digits.{dec_char}
use tinylittleos.Util.StrUtil.Text.{Shows, dec-Shows}

abbrev blank : Memory
blank x = 63

dec-Shows_example : Returns (dec 4096 1000 blank) (Shows 10 dec_char 4096 1000 blank)
dec-Shows_example = dec-Shows 4096 1000 blank (omega arith)

-- "-7"
minus_seven :
    Returns
      (dec_int 0xFFFFFFF9 1000 blank)
      λ r. (r.0 ≡ 2) × (r.1 1000 ≡ 45) × (r.1 1001 ≡ 55) × (r.1 1002 ≡ 0)
unfolding dec_int dec dec_digits reverse finish
minus_seven = (_, refl, (refl, refl, refl, refl))
