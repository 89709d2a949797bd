-- ===== src/Api/Passed.antt =====
-- mmtk/src/api.rs: the functions that hand a call to mmtk-core. Those that need the instance fetch
-- it from the binding, and panic before `mmtk_init_binding`.
pub mod Laws
mod Tests
use mmtk_ruby.Base.{
  ℕ, suc, zero, ◌/◌, ◌%◌, Bool, ◌==◌, if◌then◌else◌, List, [], ◌∷◌, Option, none, some, Outcome, ok,
  panic, blocked, lock, is_empty, true, false, ◌>>=◌, unexpected_allocator,
}
use mmtk_ruby.Vm.{Address, ObjectReference, Core}
use mmtk_ruby.Globals.{Globals, mmtk, binding}
use mmtk_ruby.Binding as Binding
use mmtk_ruby.Api.Manager.{MemoryManager}

-- `u64::trailing_zeros` of the Rust library, on a word of `bits` bits.
unfoldable pub trailing_zeros : (bits : ℕ) → ℕ → ℕ
trailing_zeros zero n = 0
trailing_zeros (suc bits) n =
    let rest = suc (trailing_zeros bits (n / 2)) in if n % 2 == 0 then rest else 0

module _ {W : Type 0} (core : Core W) (manager : MemoryManager W) where
  -- A call that changes the state, on the instance.
  changing : (Address → W → W) → Globals → W → Outcome W
  changing call g w = mmtk g >>= λ m. ok (call m w)

  pub mmtk_bind_mutator : (tls : Address) → Globals → W → Outcome (Address × W)
  mmtk_bind_mutator tls g w = mmtk g >>= λ m. ok (manager.bind_mutator m tls w)

  pub mmtk_destroy_mutator : (mutator : Address) → W → W
  mmtk_destroy_mutator mutator w = manager.destroy_mutator mutator w

  pub mmtk_post_alloc : (mutator : Address) (refer : ObjectReference) (bytes semantics : ℕ) → W → W
  mmtk_post_alloc mutator refer bytes semantics w =
      manager.post_alloc mutator refer bytes semantics w

  pub mmtk_initialize_collection : (tls : Address) → Globals → W → Outcome W
  unfolding changing
  mmtk_initialize_collection tls = changing (λ m. manager.initialize_collection m tls)

  -- `join` waits for a thread until it has quit.
  join_when_quit : Bool → Binding.RubyBinding → Outcome (ℕ × Binding.RubyBinding)
  join_when_quit true b = Binding.join_all_gc_threads b
  join_when_quit false b = do
    handles ← lock b.gc_thread_join_handles
    if is_empty handles then Binding.join_all_gc_threads b else blocked

  -- The binding joins the GC threads; the result has how many it joined.
  pub mmtk_prepare_to_fork : Globals → W → Outcome (Globals × ℕ × W)
  unfolding changing join_when_quit
  mmtk_prepare_to_fork g w = do
    w' ← changing manager.prepare_to_fork g w
    b ← binding g
    joined ← join_when_quit (manager.gc_threads_quit b.mmtk w') b
    ok (record g { binding_cell = some joined.1 }, joined.0, w')

  pub mmtk_after_fork : (tls : Address) → Globals → W → Outcome W
  unfolding changing
  mmtk_after_fork tls = changing (λ m. manager.after_fork m tls)

  pub mmtk_used_bytes : Globals → W → Outcome ℕ
  mmtk_used_bytes g w = mmtk g >>= λ m. ok (manager.used_bytes m w)

  pub mmtk_free_bytes : Globals → W → Outcome ℕ
  mmtk_free_bytes g w = mmtk g >>= λ m. ok (manager.free_bytes m w)

  pub mmtk_total_bytes : Globals → W → Outcome ℕ
  mmtk_total_bytes g w = mmtk g >>= λ m. ok (manager.total_bytes m w)

  pub mmtk_is_reachable : ObjectReference → W → Bool
  mmtk_is_reachable object w = core.is_reachable w object

  pub mmtk_is_live_object : ObjectReference → W → Bool
  mmtk_is_live_object object w = core.is_live w object

  pub mmtk_handle_user_collection_request :
      (tls : Address) (force exhaustive : Bool) → Globals → W → Outcome W
  unfolding changing
  mmtk_handle_user_collection_request tls force exhaustive =
      changing (λ m. manager.handle_user_collection_request m tls force exhaustive)

  pub mmtk_harness_begin : (tls : Address) → Globals → W → Outcome W
  unfolding changing
  mmtk_harness_begin tls = changing (λ m. manager.harness_begin m tls)

  pub mmtk_harness_end : (tls : Address) → Globals → W → Outcome W
  unfolding changing
  mmtk_harness_end tls = changing manager.harness_end

  pub mmtk_starting_heap_address : Address
  mmtk_starting_heap_address = manager.starting_heap_address

  pub mmtk_last_heap_address : Address
  mmtk_last_heap_address = manager.last_heap_address

  pub mmtk_get_vo_bit_log_region_size : ℕ
  mmtk_get_vo_bit_log_region_size = trailing_zeros 64 core.vo_bit_region_size

  pub mmtk_get_vo_bit_base : Address
  mmtk_get_vo_bit_base = manager.vo_bit_side_metadata_addr

  pub mmtk_gc_poll : (tls : Address) → Globals → W → Outcome W
  unfolding changing
  mmtk_gc_poll tls = changing (λ m. manager.gc_poll m tls)

  pub mmtk_get_immix_bump_ptr_offset : Outcome ℕ
  mmtk_get_immix_bump_ptr_offset = elim (manager.immix_allocator_info 0) [
    | some bump_pointer_offset ↦ ok bump_pointer_offset
    | none ↦ panic unexpected_allocator
  ]

  pub mmtk_pin_object : ObjectReference → W → Bool × W
  mmtk_pin_object object w = core.pin_object object w

  pub mmtk_unpin_object : ObjectReference → W → Bool × W
  mmtk_unpin_object object w = core.unpin_object object w

  pub mmtk_is_pinned : ObjectReference → W → Bool
  mmtk_is_pinned object w = core.is_pinned w object

  -- The slot and the target are ignored.
  pub mmtk_object_reference_write_post : (mutator : Address) → ObjectReference → W → W
  mmtk_object_reference_write_post mutator object w =
      let ignored_slot : Address = 0 in
      let ignored_target : ObjectReference = 0 in
      manager.object_reference_write_post mutator object ignored_slot ignored_target w

  call_each : (ObjectReference → W → W) → List ObjectReference → W → W
  call_each callback [] w = w
  call_each callback (object ∷ objects) w = call_each callback objects (callback object w)

  -- `user_data` is handed to each call of `callback`.
  pub mmtk_enumerate_objects :
      (callback : ObjectReference → Address → W → W)
      → (user_data : Address) → Globals
      → W
      → Outcome W
  unfolding call_each
  mmtk_enumerate_objects callback user_data g w = do
    m ← mmtk g
    ok (call_each (λ object. callback object user_data) (manager.enumerated m w) w)
