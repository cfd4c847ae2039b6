-- ===== src/Lib.antt =====
-- Verification of tinylittleos, a small 32-bit kernel in C++ (kernel/).
--
-- The parts and how they interact. The page allocator (kernel/memory/page_allocator.cpp) hands out
-- blocks of 4k to 32k of kernel memory from buddies of 512k each (`kmem`), and single pages of user
-- memory from a linked list (`hmem`). The slab allocator stands on `kmem` and on the bitset; the data
-- structures under kernel/util/ds, the scheduler and the file system stand on the slab allocator.
-- Tasks are in rings of `ds::intrusive_doubly_linked_node`. `fs::traverse` asks the inodes of a mounted
-- file system, such as the tar archive, for the components of a path; the loader of programs reads
-- from an open file; the interrupts lead to the scheduler and the keyboard.
--
-- Files and code:
-- - Common: names shared by all files. Common/Run has the runs that may fail: a failed `kassert`, an
--   access out of bounds or through null and exhausted fuel are the cases of `Fault`. Common/Bits and
--   Common/Words are about bits of machine words and of arrays of words.
-- - Ds/Bitset: kernel/util/ds/bitset.hpp, each method of `ds::bitset` under its own name.
--   Laws, Find, Loops and Prefix are about one bit, `find_bit`, the loops and the operations
--   up to a bound.
-- - Ds/Ring: kernel/util/ds/list.hpp over a heap of the two pointers of each node; Laws is about
--   `add_after_self` and `unlink`, Walk about the iteration.
-- - Ds/Hashtable: kernel/util/ds/hashtable.hpp; the ring of links of a bucket is its first link and
--   the list of the others. Lookup, Insert and Remove are about the methods of these names.
-- - Util/Cstr: kernel/util/cstr.cpp, each function under its own name; Copy is about those that
--   write, Scan about `strlen` and `memcmp`.
-- - Util/StrUtil: kernel/util/str_util.cpp; Digits is about the loops, Text about what is written.
-- - Memory/Buddy: `struct buddy` of kernel/memory/page_allocator.cpp. The members that the source
--   writes out for each of the sizes 4096, 8192, 16384 and 32768 are one definition over `Size`
--   (`mark_alloc k8` is `mark_alloc_k8`). A pointer to a buddy is a number: 0 is null, 1 the head
--   of a list, i + 2 the buddy `buddy_array[i]`. Words is about one bitmap, Links about the linked
--   list, Marks about `mark_alloc_kN` and `mark_free_kN` on both, Levels about the four sizes
--   together, Lowest about the search for a block, Coherent about how the four bitmaps belong
--   together, Alloc, FreeUp and Free about `alloc<N>` and `free<N>`, Cycle about both in a row.
-- - Memory/Kmem: `kmem_alloc_N`, `kmem_free_N`, `kmem_buddy_new`, `_map_page`, `phys_t` and, as
--   `init_layout`, the layout that `init_page_allocator` sets. Lists is
--   about the heads of the lists, Address about block addresses, Blocks and Release about allocation
--   and release by address, Grow and Fresh about new buddies.
-- - Memory/Hmem: `hmem_alloc_page`, `hmem_free_page` and `scoped_hmem_mapping`; Chains is about the
--   list of free pages.
-- - Memory/Slab: kernel/memory/slab.hpp over the bitset; Allocate, New and Free are about the
--   two methods, Beyond about sizes for which there are as many objects as bits.
-- - Devices/Keyboard: kernel/devices/keyboard.cpp; Layout says what the keys type, Keys
--   is about the handler of scan codes.
-- - Devices/Tty: the text screen of kernel/tty.cpp; Mirror is about the copy of it in memory, Start
--   about the screen from `initialize` on. The cursor of the hardware is left out.
-- - Ds/Refcount: kernel/util/ds/refcount.cpp.
-- - Util/Errno: `errno` of kernel/util.hpp, with `Outcome` for the results of a function that returns
--   one, and `ssize_t` as `ℤ`.
-- - Fs/Tar: kernel/fs/tar.cpp. Entries says what an archive is and is about the loops over one name,
--   Search about `tar_lookup`, Number about `tar_lookup_by_index`; Inode has the inodes, with Directory
--   about their `lookup` and Contents about `tar_read`.
-- - Scheduler/Tasks: kernel/scheduler/init.cpp and task_blocking.hpp over the rings of Ds/Ring, and the
--   interrupt depth of kernel/interrupts/init.cpp; Pick is about `pick_next_task`. A switch of the
--   stack is a change of the current task.
-- - Scheduler/Mutex: kernel/scheduler/mutex.cpp. `lock` is cut at its call of `yield`; Operations is
--   about each path of the two methods, Steps has the tasks and the timer as a step relation, Safety
--   the invariant, with Switch, Moves, Leaves and Reachable about what keeps it.
-- - Ds/Rbtree: kernel/util/ds/rbtree.hpp over a heap of the three pointers of each node; Shape says
--   when a heap holds a search tree, Find, Walk, Insert and Ends are about the methods.
-- - Scheduler/Elf: kernel/scheduler/elf.cpp, with the reads of the file and the mapping of pages as
--   parameters; Reading is about the loops that read, Pages about the contents of a page, Checks about
--   the tests of the header.
-- - Fs/Vfs: kernel/fs/vfs.cpp and vfs.hpp. Mounts is about the choice of the mount point, Paths and
--   Traversal about the components of a path, References and NewInode about the references to inodes,
--   Counts and Cached about those that a traversal takes; FileDesc has the open file descriptions.
-- - Interrupts/Init: kernel/interrupts/init.cpp and pic.cpp; Table is about the descriptor table,
--   Handlers about the dispatch.
-- - Memory/Gdt: kernel/memory/gdt.cpp; Decode is about what the processor reads from the table.
-- - Memory/Multiboot: kernel/memory/multiboot.cpp; Amount is about the result.
-- - The modules named Tests hold test data and examples.
--
-- Numbers are natural numbers; 32-bit arithmetic is cut by `% 2 ^ 32` where it can leave the range.
-- Fuel: `kmem_alloc` has one unit for each nested `kmem_alloc_4k`, which `_map_page` calls only if a
-- page table is missing; `map_pages` has one for each of the 128 pages of a buddy; `strlen` and
-- `strcpy` have one for each byte up to the end, the iteration over a ring one for each node and
-- two more; the loops over digits have 32 units for at most 10.
--
-- The loops over an archive have one unit for each header and one more, those over its names one for
-- each byte; `pick_next_task` has one for each task. The loops over a search
-- tree have one for each node and one more, `traverse` one for each byte and one more, and `release`
-- one for each inode on the way to the root; the reads of the loader take two for a file that gives
-- all bytes at once.
--
-- Not modelled: interrupt flags and the scoped locks of the memory and data structures, since no
-- operation there is interleaved with another; stacks and the assembler that switches them; the
-- start-up code `init_page_allocator` but for the layout that it sets; and the
-- parts of the kernel outside the files named above.
pub mod Ds
pub mod Memory
pub mod Util
pub mod Devices
pub mod Fs
pub mod Scheduler
pub mod Interrupts
mod Common
