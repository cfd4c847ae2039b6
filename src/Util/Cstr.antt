-- ===== src/Util/Cstr.antt =====
-- kernel/util/cstr.cpp: the C functions on memory and strings. Memory is a function from addresses
-- to bytes; addresses do not wrap round. The loops that end at a zero byte run on fuel.
pub mod Copy
pub mod Scan
mod Tests
use tinylittleos.Common.{ℕ, zero, suc, ◌+◌, ◌%◌, Bool, true, false, not, ◌==◌, ltb, if◌then◌else◌}
use tinylittleos.Common.Run.{Run, ok, fault, out_of_fuel}

abbrev pub Memory : Type 0
Memory = ℕ → ℕ

-- `dst[i] = src[j]`
abbrev pub copy_byte : (dst src : ℕ) → Memory → Memory
copy_byte dst src m x = if x == dst then m src else m x

unfoldable pub strlen : (fuel s len : ℕ) → Memory → Run ℕ
strlen zero s len m = fault out_of_fuel
strlen (suc fuel) s len m =
    let rest = strlen fuel s (len + 1) m in if m (s + len) == 0 then ok len else rest

-- The loop upwards, from byte `i` on.
unfoldable pub copy_up : (left i dst src : ℕ) → Memory → Memory
copy_up zero i dst src m = m
copy_up (suc left) i dst src m = copy_up left (i + 1) dst src (copy_byte (dst + i) (src + i) m)

-- The loop downwards, from byte `i - 1` on.
unfoldable pub copy_down : (i dst src : ℕ) → Memory → Memory
copy_down zero dst src m = m
copy_down (suc i) dst src m = copy_down i dst src (copy_byte (dst + i) (src + i) m)

unfoldable pub memcpy : (dst src size : ℕ) → Memory → Memory
memcpy dst src size m = copy_up size 0 dst src m

unfoldable pub memmove : (dst src size : ℕ) → Memory → Memory
memmove dst src size m = if ltb dst src then copy_up size 0 dst src m else copy_down size dst src m

-- The results -1, 0 and 1.
pub data Compared : Type 0 where
  less same greater : Compared

-- The loop of `memcmp`, from byte `i` on.
unfoldable pub compare_from : (left i a b : ℕ) → Memory → Compared
compare_from zero i a b m = same
compare_from (suc left) i a b m =
    let rest = compare_from left (i + 1) a b m in
    if ltb (m (a + i)) (m (b + i))
    then less
    else if ltb (m (b + i)) (m (a + i))
    then greater
    else rest

unfoldable pub memcmp : (a b size : ℕ) → Memory → Compared
memcmp a b size m = compare_from size 0 a b m

-- The loop of `memset`, from byte `i` on.
unfoldable pub set_from : (left i buf value : ℕ) → Memory → Memory
set_from zero i buf value m = m
set_from (suc left) i buf value m =
    set_from left (i + 1) buf value (λ x. if x == buf + i then value % 256 else m x)

unfoldable pub memset : (buf value size : ℕ) → Memory → Memory
memset buf value size m = set_from size 0 buf value m

-- The loop of `strcpy`: one byte is copied before the first test, which looks at the next byte.
unfoldable pub strcpy : (fuel dest src : ℕ) → Memory → Run Memory
strcpy zero dest src m = fault out_of_fuel
strcpy (suc fuel) dest src m =
    let m' = copy_byte dest src m in
    let rest = strcpy fuel (dest + 1) (src + 1) m' in if m' (src + 1) == 0 then ok m' else rest
