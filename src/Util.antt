-- ===== src/Util.antt =====
-- kernel/util: strings and memory.
pub mod Errno
pub mod Cstr
pub mod StrUtil
