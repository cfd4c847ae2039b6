-- ===== src/Memory/Gdt/Tests.antt =====
-- kernel/memory/gdt.cpp with the task state of 104 bytes at 0xc0112340.
use tinylittleos.Common.{◌≡◌, arith}
use tinylittleos.Memory.Gdt.{init_gdt, concat_gdt_entries, segments}
use tinylittleos.Memory.Gdt.Decode.{decode, segment, decode-init_gdt}

decode-init_gdt_example :
    decode 40 (init_gdt 0xc0112340 (concat_gdt_entries (segments 104))) ≡ segment 0xc0112340 104 5
decode-init_gdt_example = decode-init_gdt 0xc0112340 104 5 (omega arith) (omega arith) (omega arith)
