-- ===== src/Processors.antt =====
-- src/processors: the lock that the processors share.
pub mod Spinlock
