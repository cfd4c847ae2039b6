-- ===== src/Util/Cstr/Tests.antt =====
-- kernel/util/cstr.cpp on the string "hi", at address 100.
use tinylittleos.Common.{◌≡◌, refl, arith, ◌==◌, if◌then◌else◌, inr}
use tinylittleos.Common.Run.{Returns}
use tinylittleos.Util.Cstr.{Memory, memmove, strcpy}
use tinylittleos.Util.Cstr.Copy.{Copies, memmove-Copies, strcpy-Copies}

abbrev hi : Memory
hi x = if x == 100 then 104 else if x == 101 then 105 else if x == 102 then 0 else 63

memmove-Copies_example : Copies 101 100 3 hi (memmove 101 100 3 hi)
memmove-Copies_example = memmove-Copies 101 100 3 hi

strcpy-Copies_example : Returns (strcpy 10 200 100 hi) (Copies 200 100 2 hi)
strcpy-Copies_example =
    strcpy-Copies 1 10 200 100 hi (omega arith) (λ i lo up. ground arith) refl (inr (omega arith))

-- The end of the string is not copied.
strcpy_end : Returns (strcpy 10 200 100 hi) λ m. m 202 ≡ 63
unfolding strcpy
strcpy_end = (_, refl, refl)
