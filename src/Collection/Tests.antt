-- ===== src/Collection/Tests.antt =====
-- The two mutators of the small heap, and a worker whose loop ends at once.
use mmtk_ruby.Base.{◌≡◌, refl, [], Outcome, ok, none, some, false, unlocked}
use mmtk_ruby.Vm.{Address}
use mmtk_ruby.Binding.{RubyBinding}
use mmtk_ruby.Vm.Toy.{Toy, toy, toy_upcalls}
use mmtk_ruby.Abi.Tls.{GcThreadTls, for_worker}
use mmtk_ruby.Globals.{Globals, gc_thread_hook, default_hook, react, abort_process, default_report}
use mmtk_ruby.Collection.{worker_thread}
use mmtk_ruby.Collection.Laws.{worker_thread-guarded}

abbrev ends_at_once : Address → GcThreadTls (Unit {0}) Toy → Globals → Toy → Outcome (Globals × Toy)
ends_at_once mmtk_mem tls g w = ok (g, w)

abbrev bound : RubyBinding
bound = record {
  mmtk = 7000;
  options = record { ractor_check_mode = false; suffix_size = 8 };
  plan_name = unlocked none;
  weak_proc = record { obj_free_candidates = unlocked [] };
  ppp_registry = record { ppps = unlocked []; pinned_ppp_children = unlocked [] };
  moved_givtbl = unlocked [];
  gc_thread_join_handles = unlocked [];
  wb_unprotected_objects = unlocked [];
  st_chunk_sizes = record { entries = 1024; bins = 4096 };
}

abbrev hooked : Globals
hooked = record {
  binding_cell = some bound;
  gc_enabled = false;
  suffix_size = 0;
  gc_threads = some (unlocked []);
  panic_hook = gc_thread_hook default_hook;
}

worker_thread-guarded_example :
    (g₁ g₂ g' : Globals) × (w' : Toy) × (react 5 g₁ ≡ ok abort_process)
    × (ends_at_once 7000 (for_worker 7000) g₁ toy ≡ ok (g₂, w'))
    × (worker_thread toy_upcalls ends_at_once 5 7000 6000 hooked toy ≡ ok (g', w'))
    × (react 5 g' ≡ ok default_report)
worker_thread-guarded_example =
    worker_thread-guarded toy_upcalls ends_at_once 5 7000 6000 hooked [] bound toy
      (record { registry = refl; hook = refl }) refl (λ c g x. ((g, x), refl, refl, refl))
