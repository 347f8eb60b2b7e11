-- ===== src/Utils.antt =====
-- src/utils: the kernel's string utilities.
pub mod Strings
pub mod Reverse
pub mod Numerals
pub mod Numbers
pub mod Printf
