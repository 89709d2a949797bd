-- ===== src/Api/Manager.antt =====
-- The functions of mmtk-core that mmtk/src/api.rs calls for CRuby, as parameters over the state `W`
-- of mmtk-core and CRuby. An `MMTK` instance and a mutator are addresses.
use mmtk_ruby.Base.{ℕ, Bool, List, Option}
use mmtk_ruby.Vm.{Address, ObjectReference}

-- `mmtk_mem` is the instance.
pub record MemoryManager (W : Type 0) : Type 0 where
  -- `memory_manager::bind_mutator` and `destroy_mutator`; the box of a mutator is its address
  pub bind_mutator : (mmtk_mem tls : Address) → W → Address × W
  pub destroy_mutator : (mutator : Address) → W → W
  -- mutator, object, bytes, semantics
  pub post_alloc : Address → ObjectReference → ℕ → ℕ → W → W
  pub initialize_collection : (mmtk_mem tls : Address) → W → W
  pub prepare_to_fork : (mmtk_mem : Address) → W → W
  -- Whether its GC threads have returned from their loops.
  pub gc_threads_quit : (mmtk_mem : Address) → W → Bool
  pub after_fork : (mmtk_mem tls : Address) → W → W
  pub used_bytes : (mmtk_mem : Address) → W → ℕ
  pub free_bytes : (mmtk_mem : Address) → W → ℕ
  pub total_bytes : (mmtk_mem : Address) → W → ℕ
  -- mmtk, tls, force, exhaustive
  pub handle_user_collection_request : Address → Address → Bool → Bool → W → W
  pub harness_begin : (mmtk_mem tls : Address) → W → W
  pub harness_end : (mmtk_mem : Address) → W → W
  pub starting_heap_address : Address
  pub last_heap_address : Address
  pub gc_poll : (mmtk_mem tls : Address) → W → W
  -- `VO_BIT_SIDE_METADATA_ADDR`
  pub vo_bit_side_metadata_addr : Address
  -- `AllocatorInfo::new(AllocatorSelector::Immix(n))`: the offset of a `BumpPointer`, if it is one
  pub immix_allocator_info : (n : ℕ) → Option ℕ
  -- mutator, object, slot, target
  pub object_reference_write_post : Address → ObjectReference → Address → ObjectReference → W → W
  -- The objects for which `enumerate_objects` calls its closure, in order.
  pub enumerated : (mmtk_mem : Address) → W → List ObjectReference
