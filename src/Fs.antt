-- ===== src/Fs.antt =====
-- The file system of fs/.
pub mod Volume
pub mod Fat16
mod Tests
