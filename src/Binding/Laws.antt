-- ===== src/Binding/Laws.antt =====
-- mmtk/src/binding.rs: the plan name, the join handles, the set of WB-unprotected objects and the
-- chunk sizes that the environment sets.
use mmtk_ruby.Base.{
  ℕ, ◌+◌, ◌≡◌, refl, ap, ◌∙◌, arith, Bool, true, false, not, member, if◌then◌else◌, length, List,
  [], ◌∷◌, Option, none, some, ok, panic, unlocked, free, thread_panicked, zero_step,
}
use mmtk_ruby.Base.HashSet
use mmtk_ruby.Base.HashSet.{IsHashSet, contains-insert, insert-IsHashSet, any}
use mmtk_ruby.Build.{Build}
use mmtk_ruby.Vm.{Address, ObjectReference, RubyUpcalls}
use mmtk_ruby.Weak.Tables.{process_weak_table_chunked}
use mmtk_ruby.Weak.Tables.Laws.{no_entries_step}
use mmtk_ruby.Binding.{
  EnvVar, ruby_mmtk_entries_chunk_size, parse_usize, env_default, RubyBindingOptions, RubyBinding,
  new, cached_plan_name, fresh_plan_name, get_plan_name_c, join_each, join_all_gc_threads,
  register_wb_unprotected_object, is_object_wb_unprotected,
}

pub get_plan_name_c-fresh :
    (name : List ℕ) (b : RubyBinding)
    → b.plan_name.status ≡ free
    → b.plan_name.value ≡ none
    → member 0 name ≡ false
    → get_plan_name_c name b ≡ ok (name, record b { plan_name = unlocked (some name) })
unfolding get_plan_name_c cached_plan_name fresh_plan_name
get_plan_name_c-fresh name b h n z = rw (h, n, z) refl

pub get_plan_name_c-again :
    (name cached : List ℕ) (b : RubyBinding)
    → b.plan_name.status ≡ free
    → b.plan_name.value ≡ some cached
    → get_plan_name_c name b ≡ ok (cached, record b { plan_name = unlocked (some cached) })
unfolding get_plan_name_c cached_plan_name
get_plan_name_c-again name cached b h c = rw (h, c) refl

pub register_wb-inserts :
    (b : RubyBinding) (object : ObjectReference)
    → b.wb_unprotected_objects.status ≡ free
    → register_wb_unprotected_object object b
      ≡ ok (record b {
        wb_unprotected_objects = unlocked (HashSet.insert b.wb_unprotected_objects.value object);
      })
unfolding register_wb_unprotected_object
register_wb-inserts b object h = rw h refl

pub is_wb-contains :
    (b : RubyBinding) (object : ObjectReference)
    → b.wb_unprotected_objects.status ≡ free
    → is_object_wb_unprotected object b
      ≡ ok (HashSet.contains b.wb_unprotected_objects.value object)
unfolding is_object_wb_unprotected
is_wb-contains b object h = rw h refl

join_each_lem :
    (handles : List Bool) (n : ℕ)
    → join_each handles n
      ≡ (if any not handles then panic thread_panicked else ok (n + length handles))
unfolding join_each
join_each_lem [] n = ap ok (omega arith)
join_each_lem (true ∷ handles) n =
    join_each_lem handles (n + 1)
    ∙ ap (λ r. if any not handles then panic thread_panicked else ok r) (omega arith)
join_each_lem (false ∷ handles) n = refl

-- While nobody holds the lock: if no thread has panicked, all threads are joined, the number is
-- right and no handle is left; otherwise the call panics.
pub join_all_gc_threads-joins :
    (b : RubyBinding)
    → b.gc_thread_join_handles.status ≡ free
    → join_all_gc_threads b ≡ (
        if any not b.gc_thread_join_handles.value
        then panic thread_panicked
        else ok (
          length b.gc_thread_join_handles.value,
          record b { gc_thread_join_handles = unlocked [] },
        ))
unfolding join_all_gc_threads
join_all_gc_threads-joins b h =
    rw (h, join_each_lem b.gc_thread_join_handles.value 0) (ground arith)

-- A size that the environment sets.
entries_size :
    (mmtk : ℕ) (options : RubyBindingOptions) (env : EnvVar → Option (List ℕ)) (x : List ℕ) (n : ℕ)
    → env ruby_mmtk_entries_chunk_size ≡ some x
    → parse_usize x ≡ some n
    → (new mmtk options env).0.st_chunk_sizes.entries ≡ n
unfolding new env_default
entries_size mmtk options env x n e p = rw (e, p) refl

-- With the chunk size of the entries set to zero in the environment, the processing of every weak
-- table panics.
pub zero_chunk_size-panics :
    {W : Type 0} (build : Build) (up : RubyUpcalls W) (mmtk : ℕ) (options : RubyBindingOptions)
    (env : EnvVar → Option (List ℕ)) (x : List ℕ) (name : ℕ) (table : Address)
    (weak_keys weak_values forward : Bool) (w : W)
    → env ruby_mmtk_entries_chunk_size ≡ some x
    → parse_usize x ≡ some 0
    → process_weak_table_chunked build up
        (new mmtk options env).0.st_chunk_sizes
        name
        table
        weak_keys
        weak_values
        forward
        w
      ≡ panic zero_step
zero_chunk_size-panics build up mmtk options env x name table k v f w e p =
    no_entries_step build up (new mmtk options env).0.st_chunk_sizes name table k v f w
      (entries_size mmtk options env x 0 e p)
