-- ===== src/Drivers.antt =====
-- The drivers of drivers/.
pub mod Keyboard
pub mod Ata
pub mod Console
