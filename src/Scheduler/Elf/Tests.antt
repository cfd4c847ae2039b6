-- ===== src/Scheduler/Elf/Tests.antt =====
-- kernel/scheduler/elf.cpp with a file of 5000 bytes whose segment holds all of it.
use tinylittleos.Common.{ℕ, ◌==◌, ◌≡◌, refl, inl, Bool, true, if◌then◌else◌, arith}
use tinylittleos.Common.Run.{Run, ok, Returns}
use tinylittleos.Util.Cstr.{Memory}
use tinylittleos.Util.Errno.{success}
use tinylittleos.Fs.Tar.Inode.{InodeTar}
use tinylittleos.Scheduler.Elf.{Elf32Phdr, fill_page, check_supported}
use tinylittleos.Scheduler.Elf.Reading.{tar_pread}
use tinylittleos.Scheduler.Elf.Pages.{Loaded, InFile, page_byte, fill_page-Loaded}
use tinylittleos.Scheduler.Elf.Checks.{with_byte, check_supported-any}

abbrev program : InodeTar
program = record { i_num = 3; m_contents = 100000; m_contents_length = 5000; m_filename_length = 4 }

abbrev segment : Elf32Phdr
segment = record {
  p_type = 1;
  p_offset = 0;
  p_vaddr = 8192;
  p_filesz = 5000;
  p_memsz = 5000;
  p_flags = 5;
}

abbrev ones : Memory
ones a = 1

segment-InFile : InFile program segment
segment-InFile = record { length_fits = omega arith; whole = omega arith }

fill_page-Loaded_example :
    Returns
      (fill_page 2 (tar_pread program) segment 8192 8192 ones)
      λ r. (m' : Memory) × (r ≡ success m') × Loaded program segment 8192 8192 ones m'
fill_page-Loaded_example =
    fill_page-Loaded program segment 2 8192 8192 ones segment-InFile (omega arith) (omega arith)
      (inl (omega arith))

-- The first of the two pages is cleared, the second one is not.
first_page : page_byte program segment 0 7 ones ≡ 0
first_page = refl

second_page : page_byte program segment 4096 7 ones ≡ 1
second_page = refl

abbrev header : Memory
header a =
    if a == 1
    then b'E'
    else if a == 2
    then b'L'
    else if a == 3
    then b'F'
    else if a == 16
    then 2
    else if a == 17
    then 0
    else if a == 18
    then 3
    else if a == 19
    then 0
    else 1

check_supported-any_example : (check_supported 0 (with_byte 0 0 header)).0 ≡ true
check_supported-any_example =
    check_supported-any 0 0 header (record {
      elf = (refl, refl, refl);
      ident = (refl, refl, refl);
      machine = refl;
      type_ = refl;
    })

abbrev nowhere : (virt : ℕ) (write : Bool) → Memory → Run Memory
nowhere virt write w = ok w
