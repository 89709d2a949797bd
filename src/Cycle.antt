-- ===== src/Cycle.antt =====
-- mmtk/src: what the components do together during a collection.
mod Closure
mod Moves
mod Pinning
mod Repeated
mod Roots
mod Tables
mod Tests
