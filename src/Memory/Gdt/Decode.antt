-- ===== src/Memory/Gdt/Decode.antt =====
-- kernel/memory/gdt.cpp: what the processor reads from the table.
use tinylittleos.Common.{
  ℕ, zero, suc, ◌+◌, ◌*◌, ◌/◌, ◌%◌, ◌^◌, ◌<◌, ◌≡◌, ◌==◌, if◌then◌else◌, bit_or, refl, ap, ◌∙◌, List,
  get_or, arith,
}
use tinylittleos.Common.Bits.{bit_or-nibble}
use tinylittleos.Memory.Gdt.{GdtEntry, gdt_entry, concat_gdt_entries, segments, init_gdt}

-- The descriptor at a byte of the table, as the processor takes it apart.
unfoldable pub decode : (at : ℕ) → List ℕ → GdtEntry
unfolding get_or
decode at a =
    let byte = λ (i : ℕ). get_or a (at + i) 0 in
    record {
      base = byte 2 + byte 3 * 2 ^ 8 + byte 4 * 2 ^ 16 + byte 7 * 2 ^ 24;
      limit = byte 0 + byte 1 * 2 ^ 8 + byte 6 % 2 ^ 4 * 2 ^ 16;
      access_byte = byte 5;
      flags = byte 6 / 2 ^ 4;
    }

-- The bytes at `at` are those of an entry.
decode-gdt_entry :
    (e : GdtEntry)
    → e.base < 2 ^ 32
    → e.limit < 2 ^ 20
    → e.flags < 2 ^ 4
    → decode 0 (gdt_entry e) ≡ e
unfolding decode gdt_entry
decode-gdt_entry e base limit flags =
    let high : bit_or (e.limit / 2 ^ 16 % 2 ^ 4) (e.flags * 2 ^ 4) % 2 ^ 8
        ≡ e.limit / 2 ^ 16 % 2 ^ 4 + e.flags * 16 =
      ap (λ b. b % 2 ^ 8) (bit_or-nibble (e.limit / 2 ^ 16 % 2 ^ 4) e.flags (omega arith))
      ∙ omega arith in
    let b : e.base % 2 ^ 8
          + e.base / 2 ^ 8 % 2 ^ 8 * 2 ^ 8
          + e.base / 2 ^ 16 % 2 ^ 8 * 2 ^ 16
          + e.base / 2 ^ 24 % 2 ^ 8 * 2 ^ 24
        ≡ e.base =
      omega arith in
    let l : e.limit % 2 ^ 8
          + e.limit / 2 ^ 8 % 2 ^ 8 * 2 ^ 8
          + (e.limit / 2 ^ 16 % 2 ^ 4 + e.flags * 16) % 2 ^ 4 * 2 ^ 16
        ≡ e.limit =
      omega arith in
    let f : (e.limit / 2 ^ 16 % 2 ^ 4 + e.flags * 16) / 2 ^ 4 ≡ e.flags = omega arith in
    rw (high, b, l, f) refl

-- The segments that the kernel means to have, with the task state at its address.
abbrev pub segment : (tss_addr tss_size : ℕ) → (n : ℕ) → GdtEntry
segment tss_addr tss_size n =
    if n == 5
    then record { base = tss_addr; limit = tss_size; access_byte = 0b10001001; flags = 0 }
    else if n == 0
    then record { base = 0; limit = 0; access_byte = 0; flags = 0 }
    else record {
      base = 0;
      limit = 0xFFFFF;
      access_byte =
          if n == 1
          then 0b10011010
          else if n == 2
          then 0b10010010
          else if n == 3
          then 0b11111010
          else 0b11110010;
      flags = 0b1100;
    }

-- In the table of the descriptors with the address of the task state entered, the processor reads each
-- of the six segments as the kernel means it: the kernel and user segments span all memory, and that of
-- the task state begins at its address.
pub decode-init_gdt :
    (tss_addr tss_size n : ℕ)
    → tss_addr < 2 ^ 32
    → tss_size < 2 ^ 20
    → n < 6
    → decode (n * 8) (init_gdt tss_addr (concat_gdt_entries (segments tss_size)))
      ≡ segment tss_addr tss_size n
unfolding decode init_gdt concat_gdt_entries gdt_entry
decode-init_gdt tss_addr tss_size zero a l lt = refl
decode-init_gdt tss_addr tss_size (suc zero) a l lt = refl
decode-init_gdt tss_addr tss_size (suc (suc zero)) a l lt = refl
decode-init_gdt tss_addr tss_size (suc (suc (suc zero))) a l lt = refl
decode-init_gdt tss_addr tss_size (suc (suc (suc (suc zero)))) a l lt = refl
decode-init_gdt tss_addr tss_size (suc (suc (suc (suc (suc zero))))) a l lt =
    decode-gdt_entry (segment tss_addr tss_size 5) a l (omega arith)
decode-init_gdt tss_addr tss_size (suc (suc (suc (suc (suc (suc n)))))) a l lt =
    absurd (omega arith)
