-- ===== src/Api/Passed/Laws.antt =====
-- mmtk/src/api.rs: the calls that are passed on, before and after initialisation.
use native.Mathlib.Nat.{pow-suc}
use mmtk_ruby.Base.{
  true, ℕ, zero, suc, ◌/◌, ◌%◌, ◌^◌, ◌<◌, ◌≡◌, refl, ap, [], if◌then◌else◌, not, length, some, ok,
  panic, thread_panicked, free, unlocked, arith,
}
use mmtk_ruby.Vm.{Core}
use mmtk_ruby.Base.HashSet.{any}
use mmtk_ruby.Binding.{RubyBinding}
use mmtk_ruby.Binding.Laws.{join_all_gc_threads-joins}
use mmtk_ruby.Globals.{Globals, mmtk-some, binding-some}
use mmtk_ruby.Api.Manager.{MemoryManager}
use mmtk_ruby.Api.Passed.{
  trailing_zeros, changing, join_when_quit, mmtk_prepare_to_fork, mmtk_get_vo_bit_log_region_size,
}

-- A power of two below the width has as many trailing zeros as its exponent.
trailing_zeros-pow : (bits k : ℕ) → k < bits → trailing_zeros bits (2 ^ k) ≡ k
unfolding trailing_zeros
trailing_zeros-pow zero k h = ground arith
trailing_zeros-pow (suc bits) zero h = refl
trailing_zeros-pow (suc bits) (suc k) h =
    let e : 2 ^ suc k % 2 ≡ 0 = rw (pow-suc 2 k) (omega arith) in
    let d : 2 ^ suc k / 2 ≡ 2 ^ k = rw (pow-suc 2 k) (omega arith) in
    rw (e, d) (ap suc (trailing_zeros-pow bits k (omega arith)))

module _ {W : Type 0} (core : Core W) (manager : MemoryManager W) where
  -- Where a region of the VO bits has 2 ^ k bytes, and k is below 64, the logarithm that CRuby reads
  -- is k.
  pub mmtk_get_vo_bit_log_region_size-log :
      (k : ℕ)
      → core.vo_bit_region_size ≡ 2 ^ k
      → k < 64
      → mmtk_get_vo_bit_log_region_size core manager ≡ k
  unfolding mmtk_get_vo_bit_log_region_size
  mmtk_get_vo_bit_log_region_size-log k h small = rw h (trailing_zeros-pow 64 k small)

  -- With a binding, while nobody holds the lock of the join handles, and if the GC threads quit when
  -- mmtk-core prepares to fork: the call does not wait for ever, even if they are running when it
  -- begins. If one of them has panicked, so does the call; otherwise mmtk-core is prepared, the call
  -- reports how many threads it has joined, and leaves no handle behind.
  pub mmtk_prepare_to_fork-joins :
      (g : Globals) (b : RubyBinding) (w : W)
      → g.binding_cell ≡ some b
      → b.gc_thread_join_handles.status ≡ free
      → manager.gc_threads_quit b.mmtk (manager.prepare_to_fork b.mmtk w) ≡ true
      → mmtk_prepare_to_fork core manager g w ≡ (
          if any not b.gc_thread_join_handles.value
          then panic thread_panicked
          else ok (
            record g { binding_cell = some (record b { gc_thread_join_handles = unlocked [] }) },
            length b.gc_thread_join_handles.value,
            manager.prepare_to_fork b.mmtk w,
          ))
  unfolding mmtk_prepare_to_fork changing join_when_quit
  mmtk_prepare_to_fork-joins g b w h f quit =
      rw (mmtk-some g b h, binding-some g b h, quit, join_all_gc_threads-joins b f) (ground arith)
