-- ===== src/Ds.antt =====
-- kernel/util/ds: the data structures.
pub mod Bitset
pub mod Hashtable
pub mod Ring
pub mod Rbtree
pub mod Refcount
