-- ===== src/Fs.antt =====
-- The file systems of src/fs.
pub mod Vfs
pub mod Tempfs
pub mod Ustar
