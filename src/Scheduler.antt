-- ===== src/Scheduler.antt =====
-- kernel/scheduler: tasks, the choice of the next one, and mutexes.
pub mod Tasks
pub mod Mutex
pub mod Elf
