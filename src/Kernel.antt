-- ===== src/Kernel.antt =====
-- The kernel proper, of kernel/.
pub mod Task
