-- ===== src/Scheduler/Elf/Checks.antt =====
-- kernel/scheduler/elf.cpp: the checks on the header.
use tinylittleos.Common.{ℕ, ◌+◌, ◌<◌, ◌≤◌, ◌≡◌, ◌⊎◌, Bool, true, ◌==◌, if◌then◌else◌, arith}
use tinylittleos.Common.Run.{Run, ok}
use tinylittleos.Util.Cstr.{Memory}
use tinylittleos.Util.Errno.{failure, invalid}
use tinylittleos.Fs.Tar.Inode.{InodeTar}
use tinylittleos.Scheduler.Elf.{get_u16, check_magic, check_supported, load_elf}
use tinylittleos.Scheduler.Elf.Reading.{tar_pread, IsFile, read_whole-short}

-- The memory with another byte at the address.
abbrev pub with_byte : (at value : ℕ) → Memory → Memory
with_byte at value m a = if a == at then value else m a

-- A header of a 32-bit little-endian x86 executable, but for its first byte.
pub record IsExecutable (hdr : ℕ) (m : Memory) : Type 0 where
  pub elf : (m (hdr + 1) ≡ b'E') × (m (hdr + 2) ≡ b'L') × (m (hdr + 3) ≡ b'F')
  pub ident : (m (hdr + 4) ≡ 1) × (m (hdr + 5) ≡ 1) × (m (hdr + 6) ≡ 1)
  pub machine : get_u16 (hdr + 18) m ≡ 3
  pub type_ : get_u16 (hdr + 16) m ≡ 2

-- `check_supported` accepts the header of such an executable with any first byte, not only 0x7F.
pub check_supported-any :
    (hdr first : ℕ) (m : Memory)
    → IsExecutable hdr m
    → (check_supported hdr (with_byte hdr first m)).0 ≡ true
unfolding check_supported check_magic
check_supported-any hdr first m e = ground (arith, e.elf, e.ident, e.machine, e.type_)

module _ {World : Type 0} (map_page : (virt : ℕ) (write : Bool) → World → Run World) where
  -- A file of a tar archive that is shorter than an ELF header is invalid.
  pub load_elf-short :
      (i : InodeTar) (fuel hdr phdr : ℕ) (w : World) (m : Memory)
      → i.m_contents_length < 52
      → 2 ≤ fuel
      → (hdr + 52 ≤ i.m_contents) ⊎ (i.m_contents + i.m_contents_length ≤ hdr)
      → load_elf map_page fuel (tar_pread i) hdr phdr (w, m) ≡ ok (failure invalid)
  unfolding load_elf
  load_elf-short i fuel hdr phdr w m short enough apart =
      let file : IsFile i 0 52 = record {
        length_fits = omega arith;
        pos_fits = omega arith;
        size_fits = omega arith;
      } in
      rw (read_whole-short i hdr 52 0 file apart fuel m enough (omega arith) (omega arith))
