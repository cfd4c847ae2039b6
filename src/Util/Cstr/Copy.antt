-- ===== src/Util/Cstr/Copy.antt =====
-- kernel/util/cstr.cpp: `memcpy`, `memmove`, `memset` and `strcpy`.
use tinylittleos.Common.{
  ℕ, zero, suc, ◌+◌, ◌-◌, ◌%◌, ◌<◌, ◌≤◌, ◌≡◌, ◌≢◌, ◌⊎◌, ap, ◌∙◌, true, false, ◌&&◌, ◌==◌, ltb, leb,
  if◌then◌else◌, arith, Bool-cases, inl, inr,
}
use tinylittleos.Common.Run.{Returns}
use tinylittleos.Util.Cstr.{
  Memory, copy_byte, copy_up, copy_down, memcpy, memmove, set_from, memset, strcpy,
}

-- `size` bytes at `dst` are those at `src` before, and no other byte changes.
abbrev pub Copies : (dst src size : ℕ) → Memory → Memory → Type 0
Copies dst src size m m' =
    (x : ℕ) → m' x ≡ (if leb dst x && ltb x (dst + size) then m (src + (x - dst)) else m x)

copy_up-bytes :
    (left i dst src : ℕ) (m : Memory)
    → (dst ≤ src) ⊎ (src + i + left ≤ dst)
    → (x : ℕ)
    → copy_up left i dst src m x
      ≡ (if leb (dst + i) x && ltb x (dst + i + left) then m (src + (x - dst)) else m x)
unfolding copy_up
copy_up-bytes zero i dst src m h x = ground arith
copy_up-bytes (suc left) i dst src m h x =
    copy_up-bytes left (i + 1) dst src (copy_byte (dst + i) (src + i) m) (ground arith) x
    ∙ ground (arith, ap m {x = src + (x - dst)} {y = src + i})

copy_down-bytes :
    (i dst src : ℕ) (m : Memory) → src ≤ dst → Copies dst src i m (copy_down i dst src m)
unfolding copy_down
copy_down-bytes zero dst src m h x = ground arith
copy_down-bytes (suc i) dst src m h x =
    copy_down-bytes i dst src (copy_byte (dst + i) (src + i) m) h x
    ∙ ground (arith, ap m {x = src + (x - dst)} {y = src + i})

-- `memcpy` between areas that do not overlap.
pub memcpy-Copies :
    (dst src size : ℕ) (m : Memory)
    → (dst + size ≤ src) ⊎ (src + size ≤ dst)
    → Copies dst src size m (memcpy dst src size m)
unfolding memcpy
memcpy-Copies dst src size m h x = copy_up-bytes size 0 dst src m (ground arith) x ∙ ground arith

-- `memmove` copies the bytes as they were before, also if the areas overlap.
pub memmove-Copies :
    (dst src size : ℕ) (m : Memory) → Copies dst src size m (memmove dst src size m)
unfolding memmove
memmove-Copies dst src size m x = elim (Bool-cases (ltb dst src)) [
  | inl up ↦ rw up (copy_up-bytes size 0 dst src m (inl (ground arith)) x ∙ ground arith)
  | inr down ↦ rw down (copy_down-bytes size dst src m (ground arith) x)
]

set_from-bytes :
    (left i buf value : ℕ) (m : Memory) (x : ℕ)
    → set_from left i buf value m x
      ≡ (if leb (buf + i) x && ltb x (buf + i + left) then value % 256 else m x)
unfolding set_from
set_from-bytes zero i buf value m x = ground arith
set_from-bytes (suc left) i buf value m x =
    set_from-bytes left (i + 1) buf value (λ y. if y == buf + i then value % 256 else m y) x
    ∙ ground arith

-- `memset` sets the bytes of the area to the low byte of the value, and no other byte.
pub memset_lem :
    (buf value size : ℕ) (m : Memory) (x : ℕ)
    → memset buf value size m x ≡ (if leb buf x && ltb x (buf + size) then value % 256 else m x)
unfolding memset
memset_lem buf value size m x = set_from-bytes size 0 buf value m x ∙ ground arith

-- `strcpy` copies the bytes before the first zero byte that is not at `src` itself: of a string
-- that is not empty all but its end, which is not written.
pub strcpy-Copies :
    (n fuel dest src : ℕ) (m : Memory)
    → n < fuel
    → ((i : ℕ) → 0 < i → i ≤ n → m (src + i) ≢ 0)
    → m (src + n + 1) ≡ 0
    → (dest + n + 1 ≤ src) ⊎ (src + n + 1 < dest)
    → Returns (strcpy fuel dest src m) (Copies dest src (n + 1) m)
unfolding strcpy
strcpy-Copies n zero dest src m h some end apart = absurd (omega arith)
strcpy-Copies zero (suc fuel) dest src m h some end apart =
    let last : (copy_byte dest src m (src + 1) == 0) ≡ true =
      ground (arith, ap m {x = src + 1} {y = src + 0 + 1}) in
    (
      copy_byte dest src m,
      rw (last, strcpy),
      λ x. ground (arith, ap m {x = src + (x - dest)} {y = src}),
    )
strcpy-Copies (suc n) (suc fuel) dest src m h some end apart =
    let m1 = copy_byte dest src m in
    let more : (m1 (src + 1) == 0) ≡ false = ground (arith, some 1) in
    let (m2, run, c) =
      strcpy-Copies n fuel (dest + 1) (src + 1) m1 (omega arith)
        (λ i lo hi. ground (arith, some (i + 1), ap m {x = src + 1 + i} {y = src + (i + 1)}))
        (ground (arith, ap m {x = src + 1 + n + 1} {y = src + suc n + 1})) (ground arith) in
    (
      m2,
      rw (more, strcpy) run,
      λ x.
          c x
          ∙ ground (
            arith,
            ap m {x = src + (x - dest)} {y = src},
            ap m {x = src + 1 + (x - (dest + 1))} {y = src + (x - dest)},
          ),
    )
