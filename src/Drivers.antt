-- ===== src/Drivers.antt =====
-- The device drivers of src/drivers.
pub mod Apic
pub mod Keyboard
