-- ===== src/Interrupts.antt =====
-- kernel/interrupts: the table of interrupts and their handlers.
pub mod Init
