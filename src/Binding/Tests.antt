-- ===== src/Binding/Tests.antt =====
-- A binding for a chunk size of zero.
use mmtk_ruby.Base.{ℕ, ◌≡◌, refl, true, false, List, [], ◌∷◌, Option, none, some, panic, zero_step}
use mmtk_ruby.Build.{Build}
use mmtk_ruby.Vm.Toy.{toy, toy_upcalls}
use mmtk_ruby.Weak.Tables.{process_weak_table_chunked}
use mmtk_ruby.Binding.{
  EnvVar, ruby_mmtk_entries_chunk_size, ruby_mmtk_bins_chunk_size, parse_digits, parse_usize,
  RubyBindingOptions, RubyBinding, new,
}
use mmtk_ruby.Binding.Laws.{zero_chunk_size-panics}

abbrev checked : Build
checked = record { debug_assertions = true; extra_assert_feature = true; clear_old_copy = true }

abbrev options : RubyBindingOptions
options = record { ractor_check_mode = false; suffix_size = 0 }

abbrev zero_env : EnvVar → Option (List ℕ)
zero_env ruby_mmtk_entries_chunk_size = some (48 ∷ [])
zero_env ruby_mmtk_bins_chunk_size = none

abbrev example : RubyBinding
example = (new 7000 options zero_env).0

zero_chunk_size-panics_example :
    process_weak_table_chunked checked toy_upcalls example.st_chunk_sizes 0 9008 true false true toy
    ≡ panic zero_step
unfolding parse_digits parse_usize
zero_chunk_size-panics_example =
    zero_chunk_size-panics checked toy_upcalls 7000 options zero_env (48 ∷ []) 0 9008 true false
      true toy refl refl
