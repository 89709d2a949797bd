-- ===== src/Api/Passed/Tests.antt =====
-- The calls that are passed on, on a small mmtk-core.
use mmtk_ruby.Base.{not, ◌≡◌, refl, [], ◌∷◌, some, ok, true, false, unlocked}
use mmtk_ruby.Vm.Toy.{Toy, toy, toy_core}
use mmtk_ruby.Binding.{RubyBinding}
use mmtk_ruby.Api.Manager.{MemoryManager}
use mmtk_ruby.Api.Tests.{fresh, one_candidate}
use mmtk_ruby.Api.Passed.{mmtk_prepare_to_fork}
use mmtk_ruby.Api.Passed.Laws.{mmtk_prepare_to_fork-joins}

abbrev manager : MemoryManager Toy
manager = record {
  bind_mutator = λ m t w. (800, w);
  destroy_mutator = λ m w. w;
  post_alloc = λ m o b k w. w;
  initialize_collection = λ m t w. w;
  prepare_to_fork = λ m w. record w { moving = false };
  gc_threads_quit = λ m w. not w.moving;
  after_fork = λ m t w. w;
  used_bytes = λ m w. 4096;
  free_bytes = λ m w. 8192;
  total_bytes = λ m w. 12288;
  handle_user_collection_request = λ m t f e w. w;
  harness_begin = λ m t w. w;
  harness_end = λ m w. w;
  starting_heap_address = 1024;
  last_heap_address = 65536;
  gc_poll = λ m t w. w;
  vo_bit_side_metadata_addr = 1048576;
  immix_allocator_info = λ n. some 8;
  object_reference_write_post = λ m o s t w. w;
  enumerated = λ m w. 8 ∷ 24 ∷ 16 ∷ [];
}

-- Three GC threads that end well. They run until mmtk-core is told to prepare.
abbrev three_threads : RubyBinding
three_threads = record one_candidate { gc_thread_join_handles = unlocked (true ∷ true ∷ true ∷ []) }

mmtk_prepare_to_fork-joins_example :
    mmtk_prepare_to_fork toy_core manager (record fresh { binding_cell = some three_threads }) toy
    ≡ ok (
      record fresh {
        binding_cell = some (record three_threads { gc_thread_join_handles = unlocked [] });
      },
      3,
      record toy { moving = false },
    )
mmtk_prepare_to_fork-joins_example =
    mmtk_prepare_to_fork-joins toy_core manager (record fresh { binding_cell = some three_threads })
      three_threads toy refl refl refl
