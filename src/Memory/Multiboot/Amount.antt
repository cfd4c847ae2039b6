-- ===== src/Memory/Multiboot/Amount.antt =====
-- kernel/memory/multiboot.cpp: the amount of memory that is read.
use tinylittleos.Common.{
  ℕ, ◌+◌, ◌*◌, ◌/◌, ◌%◌, ◌^◌, ◌<◌, ◌≡◌, refl, ap, ◌∙◌, Bool-cases, true, false, inl, inr, ◌==◌, ltb,
  if◌then◌else◌, List, [], ◌∷◌, length, arith,
}
use tinylittleos.Common.Run.{ok, fault, assert_failed}
use tinylittleos.Memory.Multiboot.{MemoryMapEntry, scan, read_multiboot_data}

-- The length of the last entry at the first mebibyte, 0 without one.
abbrev pub last_length : List MemoryMapEntry → (before : ℕ) → ℕ
last_length [] before = before
last_length (e ∷ es) before = last_length es (if e.addr == 0x100000 then e.len % 2 ^ 32 else before)

scan_lem :
    (map_ : List MemoryMapEntry) (i ram_amount : ℕ)
    → i + 24 * length map_ < 2 ^ 32
    → scan (i + 24 * length map_) i map_ ram_amount ≡ ok (last_length map_ ram_amount)
unfolding scan
scan_lem [] i ram_amount lt = let e : ltb i (i + 24 * 0) ≡ false = ground arith in rw e refl
scan_lem (m ∷ map_) i ram_amount lt =
    let more : ltb i (i + 24 * length (m ∷ map_)) ≡ true = ground arith in
    let rest : i + 24 * length (m ∷ map_) ≡ i + 24 + 24 * length map_ = omega arith in
    let next = if m.addr == 0x100000 then m.len % 2 ^ 32 else ram_amount in
    let step : (i + 24) % 2 ^ 32 ≡ i + 24 = omega arith in
    rw (more, step)
      (ap (λ l. scan l (i + 24) map_ next) rest ∙ scan_lem map_ (i + 24) next (omega arith))

-- With a memory map that is all of the entries and with the other fields as the boot loader sets them,
-- the amount is the length, modulo 2 ^ 32, of the last entry at the first mebibyte; if that is 0, or
-- if there is none, an assertion fails.
pub read_multiboot_data_lem :
    (flags : ℕ) (map_ : List MemoryMapEntry)
    → flags / 2 ^ 6 % 2 ≡ 1
    → 24 * length map_ < 2 ^ 32
    → read_multiboot_data flags (24 * length map_) 0x2BADB002 map_
      ≡ (if last_length map_ 0 == 0 then fault assert_failed else ok (last_length map_ 0))
unfolding read_multiboot_data
read_multiboot_data_lem flags map_ f short =
    let scanned : scan (24 * length map_) 0 map_ 0 ≡ ok (last_length map_ 0) =
      ap (λ l. scan l 0 map_ 0) {y = 0 + 24 * length map_} (omega arith)
      ∙ scan_lem map_ 0 0 (omega arith) in
    rw (f, scanned)
      (elim (Bool-cases (last_length map_ 0 == 0)) [ inl e ↦ rw e refl | inr e ↦ rw e refl ])
