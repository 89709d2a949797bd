-- ===== src/Api/Tests.antt =====
-- The API of a process that has just started.
use mmtk_ruby.Base.{
  ℕ, ◌≡◌, refl, false, List, [], ◌∷◌, Option, none, some, ok, panic, already_initialized,
}
use mmtk_ruby.Binding.{EnvVar, RubyBindingOptions, RubyBinding}
use mmtk_ruby.Globals.{Globals, default_hook, binding}
use mmtk_ruby.Api.{mmtk_init_binding}
use mmtk_ruby.Api.Laws.{mmtk_init_binding-once}
use mmtk_ruby.Base.{unlocked}

abbrev pub options : RubyBindingOptions
options = record { ractor_check_mode = false; suffix_size = 8 }

abbrev pub no_env : EnvVar → Option (List ℕ)
no_env v = none

abbrev pub fresh : Globals
fresh = record {
  binding_cell = none;
  gc_enabled = false;
  suffix_size = 0;
  gc_threads = none;
  panic_hook = default_hook;
}

abbrev pub one_candidate : RubyBinding
one_candidate = record {
  mmtk = 7000;
  options = options;
  plan_name = unlocked none;
  weak_proc = record { obj_free_candidates = unlocked (8 ∷ []) };
  ppp_registry = record { ppps = unlocked []; pinned_ppp_children = unlocked [] };
  moved_givtbl = unlocked [];
  gc_thread_join_handles = unlocked [];
  wb_unprotected_objects = unlocked [];
  st_chunk_sizes = record { entries = 1024; bins = 4096 };
}

abbrev pub bound : Globals
bound = record fresh { binding_cell = some one_candidate }

mmtk_init_binding-once_example :
    (g' : Globals) × (mmtk_init_binding no_env options 7000 fresh ≡ ok g')
    × (binding g'
        ≡ ok (record one_candidate { weak_proc = record { obj_free_candidates = unlocked [] } }))
    × (g'.suffix_size ≡ 8)
    × (mmtk_init_binding no_env options 8000 g' ≡ panic already_initialized)
    × (mmtk_init_binding no_env options 8000 bound ≡ panic already_initialized)
mmtk_init_binding-once_example =
    mmtk_init_binding-once no_env no_env options options 7000 8000 fresh bound one_candidate refl
      refl
