-- ===== src/Scheduler/Elf.antt =====
-- kernel/scheduler/elf.cpp: the loader of programs. Memory is a function from addresses to bytes,
-- user addresses included; the headers are read into buffers at given addresses. `pread` of the file
-- is a parameter, and so is `map`, which stands for `hmem_alloc_page` and `map_user_page` at a user
-- address.
pub mod Reading
pub mod Pages
pub mod Checks
mod Tests
use tinylittleos.Common.{
  ℕ, zero, suc, ◌+◌, ◌-◌, ◌*◌, ◌/◌, ◌%◌, ◌^◌, Bool, true, false, not, ◌&&◌, ◌==◌, ltb, leb,
  if◌then◌else◌,
}
use tinylittleos.Common.Run.{Run, ok, fault, out_of_fuel, kassert, ◌>>=◌, ◌>>◌}
use tinylittleos.Util.Cstr.{Memory, memset}
use tinylittleos.Util.Errno.{Outcome, success, failure, invalid}

-- `file->pread(buf, count, pos)`
abbrev pub Pread : Type 0
Pread = (buf count pos : ℕ) → Memory → Outcome ℕ × Memory

abbrev pub get_u16 : (at : ℕ) → Memory → ℕ
get_u16 at m = m at + m (at + 1) * 2 ^ 8

abbrev pub get_u32 : (at : ℕ) → Memory → ℕ
get_u32 at m = m at + m (at + 1) * 2 ^ 8 + m (at + 2) * 2 ^ 16 + m (at + 3) * 2 ^ 24

-- The loops that read `size` bytes at `file_pos` of the file, from byte `pos` on.
unfoldable pub read_whole :
    (fuel : ℕ) → Pread → (buf size file_pos pos : ℕ) → Memory → Run (Outcome Memory)
read_whole zero pread buf size file_pos pos m = fault out_of_fuel
read_whole (suc fuel) pread buf size file_pos pos m =
    let (read_size, m') = pread (buf + pos) (size - pos) (file_pos + pos) m in
    let next : Run (Outcome Memory) = elim read_size [
      | failure e ↦ ok (failure e)
      | success n ↦
          let rest = read_whole fuel pread buf size file_pos (pos + n) m' in
          if n == 0 then ok (failure invalid) else rest
    ] in
    if ltb pos size then next else ok (success m)

-- `check_magic` assigns to the first byte, with the value of the other tests.
unfoldable pub check_magic : (hdr : ℕ) → Memory → Bool × Memory
check_magic hdr m =
    let elf = m (hdr + 1) == b'E' && (m (hdr + 2) == b'L' && m (hdr + 3) == b'F') in
    (elf, λ a. if a == hdr then (if elf then 1 else 0) else m a)

unfoldable pub check_supported : (hdr : ℕ) → Memory → Bool × Memory
unfolding check_magic
check_supported hdr m =
    let (magic, m') = check_magic hdr m in
    (
      magic
          && (m' (hdr + 4) == 1
              && (m' (hdr + 5) == 1
                  && (get_u16 (hdr + 18) m' == 3
                      && (m' (hdr + 6) == 1 && get_u16 (hdr + 16) m' == 2)))),
      m',
    )

pub record Elf32Phdr : Type 0 where
  pub p_type : ℕ
  pub p_offset : ℕ
  pub p_vaddr : ℕ
  pub p_filesz : ℕ
  pub p_memsz : ℕ
  pub p_flags : ℕ

abbrev pub get_phdr : (at : ℕ) → Memory → Elf32Phdr
get_phdr at m = record {
  p_type = get_u32 at m;
  p_offset = get_u32 (at + 4) m;
  p_vaddr = get_u32 (at + 8) m;
  p_filesz = get_u32 (at + 16) m;
  p_memsz = get_u32 (at + 20) m;
  p_flags = get_u32 (at + 24) m;
}

-- The part of a page behind `memset_at` is cleared.
abbrev pub clear_rest : (virt memset_at : ℕ) → Memory → Memory
clear_rest virt memset_at m = memset (virt + memset_at) 0 (0x1000 - memset_at) m

-- The contents of one page.
unfoldable pub fill_page :
    (fuel : ℕ) → Pread → Elf32Phdr → (addr_start virt : ℕ) → Memory → Run (Outcome Memory)
unfolding read_whole
fill_page fuel pread phdr addr_start virt m =
    let idx = virt - addr_start in
    let left = phdr.p_filesz - idx in
    let read_cnt = if ltb 0x1000 left then 0x1000 else left in
    let memset_at = if ltb 0x1000 left then 0 else left in
    let finish = λ (r : Outcome Memory).
      let done : Outcome Memory = elim r [
        | failure e ↦ failure e
        | success m' ↦ success (clear_rest virt memset_at m')
      ] in
      ok done in
    if ltb idx phdr.p_filesz
    then (read_whole fuel pread virt read_cnt ((idx + phdr.p_offset) % 2 ^ 32) 0 m >>= finish)
    else ok (success (clear_rest virt 0 m))

module _ {World : Type 0} (map_page : (virt : ℕ) (write : Bool) → World → Run World) where
  -- The loop over the pages of a segment.
  unfoldable pub load_pages :
      (fuel : ℕ)
      → Pread
      → Elf32Phdr
      → (addr_start addr_end virt : ℕ) → World × Memory
      → Run (Outcome (World × Memory))
  unfolding fill_page
  load_pages zero pread phdr addr_start addr_end virt s = fault out_of_fuel
  load_pages (suc fuel) pread phdr addr_start addr_end virt (w, m) =
      let go_on = λ (w' : World) (r : Outcome Memory).
        let rest : Run (Outcome (World × Memory)) = elim r [
          | failure e ↦ ok (failure e)
          | success m' ↦
              load_pages fuel pread phdr addr_start addr_end ((virt + 0x1000) % 2 ^ 32) (w', m')
        ] in
        rest in
      let page = do
        w' ← map_page virt (phdr.p_flags / 2 % 2 == 1) w
        r ← fill_page (suc fuel) pread phdr addr_start virt m
        go_on w' r
      in if ltb virt addr_end then page else ok (success (w, m))

  -- A segment of type `PT_LOAD`, from the page of its address on.
  unfoldable pub load_segment :
      (fuel : ℕ) → Pread → Elf32Phdr → World × Memory → Run (Outcome (World × Memory))
  unfolding load_pages
  load_segment fuel pread phdr s =
      let addr_start = phdr.p_vaddr / 0x1000 * 0x1000 in
      let load =
        load_pages fuel pread phdr addr_start ((addr_start + phdr.p_memsz) % 2 ^ 32) addr_start s in
      if phdr.p_type == 1 then load else ok (success s)

  -- The loop over the program headers, each read into the buffer at `at`.
  unfoldable pub load_headers :
      (left fuel : ℕ) → Pread → (at e_phoff i : ℕ) → World × Memory → Run (Outcome (World × Memory))
  unfolding read_whole load_segment
  load_headers zero fuel pread at e_phoff i s = ok (success s)
  load_headers (suc left) fuel pread at e_phoff i (w, m) =
      let continue = λ (r : Outcome (World × Memory)).
        let rest : Run (Outcome (World × Memory)) = elim r [
          | failure e ↦ ok (failure e)
          | success s' ↦ load_headers left fuel pread at e_phoff (i + 1) s'
        ] in
        rest in
      let segment = λ (r : Outcome Memory).
        let rest : Run (Outcome (World × Memory)) = elim r [
          | failure e ↦ ok (failure e)
          | success m' ↦ load_segment fuel pread (get_phdr at m') (w, m') >>= continue
        ] in
        rest in
      read_whole fuel pread at 32 ((e_phoff + i * 32) % 2 ^ 32) 0 m >>= segment

  -- The entry point is a result too.
  unfoldable pub load_elf :
      (fuel : ℕ) → Pread → (hdr phdr : ℕ) → World × Memory → Run (Outcome (ℕ × (World × Memory)))
  unfolding read_whole check_supported load_headers
  load_elf fuel pread hdr phdr (w, m) =
      let load = λ (m' : Memory).
        let (supported, m'') = check_supported hdr m' in
        let headers = do
          kassert (get_u16 (hdr + 42) m'' == 32)
          kassert (ltb (get_u16 (hdr + 44) m'') 1000)
          r ←
              load_headers (get_u16 (hdr + 44) m'') fuel pread phdr (get_u32 (hdr + 28) m'') 0
                (w, m'')
          let done : Outcome (ℕ × (World × Memory)) = elim r [
            | failure e ↦ failure e
            | success s ↦ success (get_u32 (hdr + 24) m', s)
          ]
          ok done
        in if supported then headers else ok (failure invalid) in
      let start = λ (r : Outcome Memory).
        let rest : Run (Outcome (ℕ × (World × Memory))) = elim r [
          | failure e ↦ ok (failure e)
          | success m' ↦ load m'
        ] in
        rest in
      read_whole fuel pread hdr 52 0 0 m >>= start
