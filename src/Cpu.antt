-- ===== src/Cpu.antt =====
-- The tables of the processor in src/cpu.
pub mod Descriptors
pub mod Gates
