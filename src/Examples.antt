-- ===== src/Examples.antt =====
-- The programs of examples/, which use the library.
pub mod Filters
pub mod Todo
