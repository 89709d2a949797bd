-- ===== src/Api/Laws.antt =====
-- mmtk/src/api.rs: initialisation happens once.
use mathlib.Core.Option.{get_or}
use mmtk_ruby.Base.{
  ℕ, ◌≡◌, refl, List, [], Option, none, some, ok, panic, already_initialized, unlocked,
}
use mmtk_ruby.Ppp as Ppp
use mmtk_ruby.Weak as Weak
use mmtk_ruby.Binding as Binding
use mmtk_ruby.Binding.{
  EnvVar, RubyBinding, RubyBindingOptions, parse_usize, ruby_mmtk_entries_chunk_size,
  ruby_mmtk_bins_chunk_size,
}
use mmtk_ruby.Globals.{Globals, binding, binding-some, set_panic_hook, set_panic_hook-keeps}
use mmtk_ruby.Api.{set_binding, mmtk_init_binding}

-- A chunk size: what the environment variable says, if it is there and a number.
abbrev pub chunk_size : Option (List ℕ) → ℕ → ℕ
chunk_size text default = elim text [
  | none ↦ default
  | some digits ↦ get_or (parse_usize digits) default
]

-- The binding of a process that has just been initialised.
abbrev pub initial : (mmtk : ℕ) → RubyBindingOptions → (EnvVar → Option (List ℕ)) → RubyBinding
initial mmtk options env = record {
  mmtk = mmtk;
  options = options;
  plan_name = unlocked none;
  weak_proc = record { obj_free_candidates = unlocked [] };
  ppp_registry = record { ppps = unlocked []; pinned_ppp_children = unlocked [] };
  moved_givtbl = unlocked [];
  gc_thread_join_handles = unlocked [];
  wb_unprotected_objects = unlocked [];
  st_chunk_sizes = record {
    entries = chunk_size (env ruby_mmtk_entries_chunk_size) 1024;
    bins = chunk_size (env ruby_mmtk_bins_chunk_size) 4096;
  };
}

new-initial :
    (mmtk : ℕ) (options : RubyBindingOptions) (env : EnvVar → Option (List ℕ))
    → Binding.new mmtk options env ≡ (initial mmtk options env, options.suffix_size)
unfolding Binding.new Weak.new Ppp.new
new-initial mmtk options env = refl

-- In a process with no binding, the first call sets the suffix size that the options ask for, and a
-- binding with these options, the instance and the chunk sizes that the environment asks for, 1024
-- and 4096 by default; its lists, sets and maps are empty and not locked, and nothing is cached. And
-- in any state in which a binding is set, a call panics, whatever its options.
pub mmtk_init_binding-once :
    (env env' : EnvVar → Option (List ℕ)) (options options' : RubyBindingOptions) (mmtk mmtk' : ℕ)
    (g later : Globals) (b : RubyBinding)
    → g.binding_cell ≡ none
    → later.binding_cell ≡ some b
    → (g' : Globals) × (mmtk_init_binding env options mmtk g ≡ ok g')
      × (binding g' ≡ ok (initial mmtk options env))
      × (g'.suffix_size ≡ options.suffix_size)
      × (mmtk_init_binding env' options' mmtk' g' ≡ panic already_initialized)
      × (mmtk_init_binding env' options' mmtk' later ≡ panic already_initialized)
unfolding mmtk_init_binding set_binding
mmtk_init_binding-once env env' options options' mmtk mmtk' g later b h k =
    let first = initial mmtk options env in
    let g' : Globals = record (set_panic_hook g) {
      suffix_size = options.suffix_size;
      binding_cell = some first;
    } in
    (
      g',
      rw (set_panic_hook-keeps g, h, new-initial mmtk options env) refl,
      binding-some g' first refl,
      refl,
      rw (set_panic_hook-keeps g') refl,
      rw (set_panic_hook-keeps later, k) refl,
    )
