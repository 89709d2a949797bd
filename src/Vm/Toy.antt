-- ===== src/Vm/Toy.antt =====
-- A small heap and a small CRuby, for evaluating the model on concrete inputs. Object 24 is dead,
-- object 16 has moved to 1016, and object 48 is no longer a PPP.
use mmtk_ruby.Base.{
  ◌+◌, refl, Bool, true, false, not, ◌==◌, if◌then◌else◌, List, [], ◌∷◌, ◌++◌, Option, none, some,
}
use mmtk_ruby.Vm.Scripts.{ObjectReference, Script, finish, visit, Keeps}
use mmtk_ruby.Vm.Functions.{Core, PinBits, SamePins}
use mmtk_ruby.Vm.Upcalls.{RubyUpcalls}

pub record Toy : Type 0 where
  pub pins : ObjectReference → Bool
  pub freed : List ObjectReference
  pub moves : List ObjectReference
  pub moving : Bool
  pub nursery : Option Bool

abbrev pub set_pin : Toy → ObjectReference → Bool → Toy
set_pin w o b = record w { pins = λ x. if o == x then b else w.pins x }

abbrev pub toy_core : Core Toy
toy_core = record {
  is_reachable = λ w o. not (o == 24);
  is_live = λ w o. not (o == 24);
  is_movable = λ w o. true;
  get_forwarded_object = λ w o. if o == 16 then some 1016 else none;
  pin_object = λ o w. (not (w.pins o), set_pin w o true);
  unpin_object = λ o w. (w.pins o, set_pin w o false);
  is_pinned = λ w o. w.pins o;
  is_mmtk_object = λ w a. true;
  vo_bit_region_size = 8;
  current_gc_may_move_object = λ w. w.moving;
  generational = λ w. w.nursery;
  trace_object = λ o w. (o, w);
}

abbrev pub toy_pin_bits : PinBits toy_core
toy_pin_bits = record {
  pin_tells = λ o w. refl;
  pin_sets = λ o w x. refl;
  unpin_tells = λ o w. refl;
  unpin_clears = λ o w x. refl;
}

abbrev quiet_script : Toy → Script Toy
quiet_script w = finish w

-- Pins the object 8 behind the one scanned, and visits the next one with no pin.
abbrev pub two_children : ObjectReference → Toy → Script Toy
two_children o w = visit w (o + 8) true (λ w' x. visit w' (o + 16) false (λ w'' y. finish w''))

abbrev pub toy_upcalls : RubyUpcalls Toy
toy_upcalls = record {
  init_gc_worker_thread = λ t w. w;
  get_gc_thread_tls = λ w. 0;
  is_mutator = λ w. true;
  stop_the_world = λ t w. w;
  resume_mutators = λ t w. w;
  block_for_gc = λ t w. w;
  number_of_mutators = λ w. 2;
  get_mutators = λ w. 800 ∷ 808 ∷ [];
  scan_vm_roots = two_children 0;
  scan_end_proc_roots = quiet_script;
  scan_global_tbl_roots = quiet_script;
  scan_yjit_roots = quiet_script;
  scan_global_symbols_roots = quiet_script;
  scan_finalizer_tbl_roots = quiet_script;
  scan_obj_to_id_tbl_roots = quiet_script;
  scan_misc_roots = quiet_script;
  scan_final_jobs_roots = quiet_script;
  scan_roots_in_mutator_thread = λ m t. two_children 96;
  is_no_longer_ppp = λ o w. o == 48;
  scan_object_ruby_style = two_children;
  call_gc_mark_children = two_children;
  call_obj_free = λ o w. record w { freed = w.freed ++ o ∷ [] };
  cleanup_generic_iv_tbl = quiet_script;
  get_original_givtbl = λ o w. if o == 16 then 5000 else 0;
  move_givtbl = λ o n w. record w { moves = w.moves ++ o ∷ n ∷ [] };
  vm_live_bytes = λ w. 0;
  update_frozen_strings_table = quiet_script;
  update_finalizer_and_obj_id_tables = quiet_script;
  update_global_symbols_table = quiet_script;
  update_overloaded_cme_table = quiet_script;
  update_ci_table = quiet_script;
  get_generic_iv_tbl = λ w. 9000;
  get_frozen_strings_table = λ w. 9008;
  get_finalizer_table = λ w. 9016;
  get_obj_to_id_table = λ w. 9024;
  get_id_to_obj_table = λ w. 9032;
  get_global_symbols_table = λ w. 9040;
  get_overloaded_cme_table = λ w. 9048;
  get_ci_table = λ w. 9056;
  st_get_num_entries = λ t w. 3;
  st_get_size_info = λ t w. (2, 3000, 4096);
  st_update_entries_range = λ t b e k v f w. (0, w);
  st_update_bins_range = λ t b e w. (0, w);
}

pub two_children-SamePins :
    (o : ObjectReference) (w : Toy) → Keeps (SamePins toy_core w) (two_children o w)
two_children-SamePins o w = (λ x. refl, λ w' x h. (h, λ w'' y k. k))

-- Nothing is pinned but object 72.
abbrev pub toy : Toy
toy = record { pins = λ x. x == 72; freed = []; moves = []; moving = true; nursery = some true }
