-- ===== src/Scanning.antt =====
-- mmtk/src/scanning.rs: scanning of objects and of roots.
pub mod Roots
pub mod VmRoots
pub mod Edges
pub mod WeakRefs
mod Fixed
use mmtk_ruby.Base.{ℕ, Bool, true, false, not, ◌&&◌, ◌%◌, ◌==◌}
use mmtk_ruby.Vm.{Address, Core}

-- mmtk/src/lib.rs, `is_mmtk_object_safe`
unfoldable pub is_mmtk_object_safe : {W : Type 0} → Core W → W → Address → Bool
is_mmtk_object_safe core w addr =
    not (addr == 0) && (addr % core.vo_bit_region_size == 0 && core.is_mmtk_object w addr)
