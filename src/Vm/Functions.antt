-- ===== src/Vm/Functions.antt =====
-- The functions of mmtk-core that the binding calls, as parameters.
use mmtk_ruby.Base.{ℕ, ◌≡◌, Bool, true, false, not, Option, ◌==◌, if◌then◌else◌}
use mmtk_ruby.Vm.Scripts.{Address, ObjectReference}

pub record Core (W : Type 0) : Type 0 where
  -- `ObjectReference::is_reachable`, `is_live`, `is_movable`, `get_forwarded_object`
  pub is_reachable : W → ObjectReference → Bool
  pub is_live : W → ObjectReference → Bool
  pub is_movable : W → ObjectReference → Bool
  pub get_forwarded_object : W → ObjectReference → Option ObjectReference
  -- `memory_manager::pin_object`, `unpin_object`, `is_pinned`; true if the call changed the bit
  pub pin_object : ObjectReference → W → Bool × W
  pub unpin_object : ObjectReference → W → Bool × W
  pub is_pinned : W → ObjectReference → Bool
  -- `memory_manager::is_mmtk_object(…).is_some()`
  pub is_mmtk_object : W → Address → Bool
  -- `VO_BIT_REGION_SIZE`
  pub vo_bit_region_size : ℕ
  -- `get_plan().current_gc_may_move_object()`, and `generational()` with its
  -- `is_current_gc_nursery()`
  pub current_gc_may_move_object : W → Bool
  pub generational : W → Option Bool
  -- `ObjectTracer::trace_object`
  pub trace_object : ObjectReference → W → ObjectReference × W

-- Documented behaviour of mmtk-core: each object has one pin bit; pinning and unpinning change
-- this bit only, and say whether they changed it.
pub record PinBits {W : Type 0} (core : Core W) : Type 0 where
  pub pin_tells : (o : ObjectReference) (w : W) → (core.pin_object o w).0 ≡ not (core.is_pinned w o)
  pub pin_sets :
      (o : ObjectReference) (w : W) (x : ObjectReference)
      → core.is_pinned (core.pin_object o w).1 x ≡ (if o == x then true else core.is_pinned w x)
  pub unpin_tells : (o : ObjectReference) (w : W) → (core.unpin_object o w).0 ≡ core.is_pinned w o
  pub unpin_clears :
      (o : ObjectReference) (w : W) (x : ObjectReference)
      → core.is_pinned (core.unpin_object o w).1 x ≡ (if o == x then false else core.is_pinned w x)

-- Two states with the same pin bits.
abbrev pub SamePins : {W : Type 0} → Core W → W → W → Type 0
SamePins core w w' = (x : ObjectReference) → core.is_pinned w' x ≡ core.is_pinned w x
