-- ===== src/Mem.antt =====
-- src/mem: memory management and the vector.
pub mod Kheap
pub mod Pmm
pub mod Paging
pub mod Vectors
