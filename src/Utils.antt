-- ===== src/Utils.antt =====
-- mmtk/src/utils.rs
pub mod Chunked
pub mod AfterAll
