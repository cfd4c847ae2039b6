-- ===== src/Scheduler/Elf/Pages.antt =====
-- kernel/scheduler/elf.cpp: what a page of a segment holds after it was loaded.
use tinylittleos.Common.{
  ℕ, ◌+◌, ◌-◌, ◌%◌, ◌^◌, ◌<◌, ◌≤◌, ◌≡◌, ◌⊎◌, inl, inr, refl, ap, ◌∙◌, Bool-cases, ◌&&◌, leb, ltb,
  if◌then◌else◌, arith,
}
use tinylittleos.Common.Run.{Returns}
use tinylittleos.Util.Cstr.{Memory}
use tinylittleos.Util.Cstr.Copy.{memset_lem}
use tinylittleos.Util.Errno.{success}
use tinylittleos.Fs.Tar.Inode.{InodeTar}
use tinylittleos.Scheduler.Elf.{Elf32Phdr, clear_rest, fill_page}
use tinylittleos.Scheduler.Elf.Reading.{tar_pread, IsFile, read_whole-Copies}

-- Byte `j` of the page at `virt`: a byte of the file if the file has it, and the page is the last one
-- with bytes of the file; else 0.
abbrev pub page_byte : InodeTar → Elf32Phdr → (idx j : ℕ) → Memory → ℕ
page_byte i phdr idx j m =
    if ltb (idx + j) phdr.p_filesz && leb phdr.p_filesz (idx + 0x1000)
    then m (i.m_contents + (idx + phdr.p_offset + j))
    else 0

clear_rest_lem :
    (virt at : ℕ) (m : Memory) (x : ℕ)
    → at ≤ 0x1000
    → clear_rest virt at m x ≡ (if leb (virt + at) x && ltb x (virt + 0x1000) then 0 else m x)
clear_rest_lem virt at m x h = memset_lem (virt + at) 0 (0x1000 - at) m x ∙ ground arith

-- The part of a segment that is in the file.
pub record InFile (i : InodeTar) (phdr : Elf32Phdr) : Type 0 where
  pub length_fits : i.m_contents_length < 2 ^ 32
  pub whole : phdr.p_offset + phdr.p_filesz ≤ i.m_contents_length

abbrev pub Loaded : InodeTar → Elf32Phdr → (addr_start virt : ℕ) → (m m' : Memory) → Type 0
Loaded i phdr addr_start virt m m' =
    (x : ℕ)
    → m' x ≡ (
        if leb virt x && ltb x (virt + 0x1000)
        then page_byte i phdr (virt - addr_start) (x - virt) m
        else m x)

page_bytes :
    (i : InodeTar) (phdr : Elf32Phdr) (idx virt x : ℕ) (m : Memory) (v : ℕ)
    → idx < phdr.p_filesz
    → v ≡ (
        if leb virt x
          && ltb x
              (virt + (if ltb 0x1000 (phdr.p_filesz - idx) then 0x1000 else phdr.p_filesz - idx))
        then m (i.m_contents + (idx + phdr.p_offset) + (x - virt))
        else m x)
    → (if leb (virt + (if ltb 0x1000 (phdr.p_filesz - idx) then 0 else phdr.p_filesz - idx)) x
          && ltb x (virt + 0x1000)
        then 0
        else v)
      ≡ (if leb virt x && ltb x (virt + 0x1000) then page_byte i phdr idx (x - virt) m else m x)
page_bytes i phdr idx virt x m v below e = ground (
  arith,
  ap m {x = i.m_contents + (idx + phdr.p_offset) + (x - virt)}
      {y = i.m_contents + (idx + phdr.p_offset + (x - virt))},
)

-- The loader fills a page at `virt` of a segment that the file has, from a file that the page does not
-- overlap: a page behind which the segment has more bytes of the file is cleared after the
-- reading; the last page with bytes of the file holds these and zeros, and a page without is zero.
pub fill_page-Loaded :
    (i : InodeTar) (phdr : Elf32Phdr) (fuel addr_start virt : ℕ) (m : Memory)
    → InFile i phdr
    → addr_start ≤ virt
    → 2 ≤ fuel
    → (virt + 0x1000 ≤ i.m_contents) ⊎ (i.m_contents + i.m_contents_length ≤ virt)
    → Returns
        (fill_page fuel (tar_pread i) phdr addr_start virt m)
        λ r. (m' : Memory) × (r ≡ success m') × Loaded i phdr addr_start virt m m'
unfolding fill_page
fill_page-Loaded i phdr fuel addr_start virt m f from enough apart =
    let idx = virt - addr_start in
    let left = phdr.p_filesz - idx in
    let read_cnt = if ltb 0x1000 left then 0x1000 else left in
    let memset_at = if ltb 0x1000 left then 0 else left in
    elim (Bool-cases (ltb idx phdr.p_filesz)) [
      | inl inside_ ↦
          let at : (idx + phdr.p_offset) % 2 ^ 32 ≡ idx + phdr.p_offset =
            ground (arith, f.length_fits, f.whole) in
          let file : IsFile i (idx + phdr.p_offset) read_cnt = record {
            length_fits = f.length_fits;
            pos_fits = ground (arith, f.length_fits, f.whole);
            size_fits = ground arith;
          } in
          let (r, run, (m1, e, c)) =
            read_whole-Copies i virt read_cnt (idx + phdr.p_offset) file (ground arith) fuel m
              enough (ground (arith, f.whole)) in
          (
            success (clear_rest virt memset_at m1),
            rw (inside_, at, run, e),
            (
              clear_rest virt memset_at m1,
              refl,
              λ x.
                  clear_rest_lem virt memset_at m1 x (ground arith)
                  ∙ page_bytes i phdr idx virt x m (m1 x) (ground arith) (c x),
            ),
          )
      | inr outside_ ↦ rw outside_ (
        success (clear_rest virt 0 m),
        refl,
        (clear_rest virt 0 m, refl, λ x. clear_rest_lem virt 0 m x (omega arith) ∙ ground arith),
      )
    ]
