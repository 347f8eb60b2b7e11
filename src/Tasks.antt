-- ===== src/Tasks.antt =====
-- src/tasks: tasks and their event queues.
pub mod Mmap
pub mod Events
pub mod Loader
pub mod Syscalls
pub mod Scheduler
