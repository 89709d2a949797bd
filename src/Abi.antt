-- ===== src/Abi.antt =====
-- mmtk/src/abi.rs: the hidden header, the object closure, thread-local storage, raw vectors.
pub mod Closure
pub mod Tls
pub mod RawVec
