-- ===== src/Collection/Stop/Tests.antt =====
-- Stopping the two mutators of the small heap, with two PPPs.
use mmtk_ruby.Base.{
  ◌≡◌, refl, true, false, List, [], ◌∷◌, ◌++◌, map, concat, IsChunked, none, some, ok, unlocked,
}
use mmtk_ruby.Build.{Build}
use mmtk_ruby.Stage.{prepare}
use mmtk_ruby.Vm.{Address}
use mmtk_ruby.Vm.Toy.{Toy, toy, toy_core, toy_upcalls}
use mmtk_ruby.Packet.{Packet, pin_ppp_children}
use mmtk_ruby.Abi.Tls.{GcThreadTls, for_worker}
use mmtk_ruby.Ppp.Registry.{ppps_of}
use mmtk_ruby.Binding.{RubyBinding}
use mmtk_ruby.Globals.{Globals, default_hook}
use mmtk_ruby.Collection.{stop_all_mutators}
use mmtk_ruby.Collection.Stop.{stop_all_mutators-pins}

abbrev checked : Build
checked = record { debug_assertions = true; extra_assert_feature = true; clear_old_copy = true }

abbrev idle_tls : GcThreadTls (Unit {0}) Toy
idle_tls = for_worker 7000

abbrev two_ppps : RubyBinding
two_ppps = record {
  mmtk = 7000;
  options = record { ractor_check_mode = false; suffix_size = 0 };
  plan_name = unlocked none;
  weak_proc = record { obj_free_candidates = unlocked [] };
  ppp_registry = record { ppps = unlocked (8 ∷ 16 ∷ []); pinned_ppp_children = unlocked [] };
  moved_givtbl = unlocked [];
  gc_thread_join_handles = unlocked [];
  wb_unprotected_objects = unlocked [];
  st_chunk_sizes = record { entries = 1024; bins = 4096 };
}

abbrev globals : Globals
globals = record {
  binding_cell = some two_ppps;
  gc_enabled = true;
  suffix_size = 0;
  gc_threads = none;
  panic_hook = default_hook;
}

abbrev note : Address → Toy → Toy
note mutator w = record w { freed = w.freed ++ mutator ∷ [] }

stop_all_mutators-pins_example :
    (packets : List Packet) × (stop_all_mutators checked toy_core toy_upcalls 7000
        (some idle_tls)
        note
        globals
        toy
      ≡ ok (
        record { stage = prepare; packets = packets } ∷ [],
        record toy { freed = 800 ∷ 808 ∷ [] },
      ))
    × (packets ≡ map pin_ppp_children (ppps_of packets))
    × (concat (ppps_of packets) ≡ 8 ∷ 16 ∷ [])
    × IsChunked 512 (ppps_of packets)
unfolding for_worker
stop_all_mutators-pins_example =
    stop_all_mutators-pins checked toy_core toy_upcalls 7000 idle_tls note globals two_ppps toy refl
      refl (record { is_worker = refl; no_closure = refl }) refl
