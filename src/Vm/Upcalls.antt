-- ===== src/Vm/Upcalls.antt =====
-- mmtk/src/abi.rs: `RubyUpcalls`, the functions of CRuby, over its state `W`. Those that may call
-- the object closure are scripts; those that only look something up leave the state alone.
use mmtk_ruby.Base.{ℕ, Bool, List}
use mmtk_ruby.Vm.Scripts.{Address, ObjectReference, Script}

pub record RubyUpcalls (W : Type 0) : Type 0 where
  pub init_gc_worker_thread : Address → W → W
  pub get_gc_thread_tls : W → Address
  pub is_mutator : W → Bool
  pub stop_the_world : Address → W → W
  pub resume_mutators : Address → W → W
  pub block_for_gc : Address → W → W
  pub number_of_mutators : W → ℕ
  -- The mutators for which `visit_mutator` is called, in order.
  pub get_mutators : W → List Address
  pub scan_vm_roots : W → Script W
  pub scan_end_proc_roots : W → Script W
  pub scan_global_tbl_roots : W → Script W
  pub scan_yjit_roots : W → Script W
  pub scan_global_symbols_roots : W → Script W
  pub scan_finalizer_tbl_roots : W → Script W
  pub scan_obj_to_id_tbl_roots : W → Script W
  pub scan_misc_roots : W → Script W
  pub scan_final_jobs_roots : W → Script W
  pub scan_roots_in_mutator_thread : Address → Address → W → Script W
  pub is_no_longer_ppp : ObjectReference → W → Bool
  pub scan_object_ruby_style : ObjectReference → W → Script W
  pub call_gc_mark_children : ObjectReference → W → Script W
  pub call_obj_free : ObjectReference → W → W
  pub cleanup_generic_iv_tbl : W → Script W
  pub get_original_givtbl : ObjectReference → W → Address
  pub move_givtbl : ObjectReference → ObjectReference → W → W
  pub vm_live_bytes : W → ℕ
  pub update_frozen_strings_table : W → Script W
  pub update_finalizer_and_obj_id_tables : W → Script W
  pub update_global_symbols_table : W → Script W
  pub update_overloaded_cme_table : W → Script W
  pub update_ci_table : W → Script W
  pub get_generic_iv_tbl : W → Address
  pub get_frozen_strings_table : W → Address
  pub get_finalizer_table : W → Address
  pub get_obj_to_id_table : W → Address
  pub get_id_to_obj_table : W → Address
  pub get_global_symbols_table : W → Address
  pub get_overloaded_cme_table : W → Address
  pub get_ci_table : W → Address
  pub st_get_num_entries : Address → W → ℕ
  -- entries_start, entries_bound, bins_num
  pub st_get_size_info : Address → W → ℕ × ℕ × ℕ
  -- table, begin, end, weak_keys, weak_records, forward; the number of deleted entries
  pub st_update_entries_range : Address → ℕ → ℕ → Bool → Bool → Bool → W → ℕ × W
  pub st_update_bins_range : Address → ℕ → ℕ → W → ℕ × W
