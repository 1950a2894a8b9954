-- ===== src/Klib.antt =====
-- klib: the intrusive list, strings and number formatting.
pub mod LinkedList
pub mod Bytes
pub mod Numbers
pub mod Strings
