-- ===== src/Memory.antt =====
-- kernel/memory: the page allocator and what stands on it.
pub mod Buddy
pub mod Kmem
pub mod Hmem
pub mod Slab
pub mod Gdt
pub mod Multiboot
mod Tests
