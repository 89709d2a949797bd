-- ===== src/Weak/Processors.antt =====
-- mmtk/src/weak_proc.rs: the packets that have CRuby update one of its global tables. The sizes
-- that the source reads for its probes are part of the results.
pub mod Laws
mod Tests
use mmtk_ruby.Base.{
  length, ℕ, Bool, List, [], ◌∷◌, Option, Outcome, ok, ◌>>=◌, ◌>>◌, not_mmtk_object, Mutex,
  try_lock,
}
use mmtk_ruby.Build.{Build, extra_assert}
use mmtk_ruby.Vm.{Address, ObjectReference, Core, RubyUpcalls, Script}
use mmtk_ruby.Givtbl.{MovedGivtblEntry, MovedGivtbl}
use mmtk_ruby.Packet.{
  TableProcessor, update_generic_iv_tbl, update_finalizer_and_obj_id_tables,
  update_overloaded_cme_table, update_ci_table,
}
use mmtk_ruby.Abi.Closure.{VisitObject, ObjectClosure, upcall}
use mmtk_ruby.Abi.Tls.{GcThreadTls, from_vwt_check, with_object_closure}
use mmtk_ruby.Scanning.{is_mmtk_object_safe}
use mmtk_ruby.Weak.{forward}

-- What a step under the object closure of the thread returns.
abbrev pub Under : Type 0 → Type 0 → Type 0
Under W T = Outcome (T × ObjectClosure (Unit {0}) W × Unit {0} × W)

module _ {W : Type 0} (build : Build) (core : Core W) (up : RubyUpcalls W) where
  pub forward_object : VisitObject (Unit {0}) W
  forward_object s w object pin =
      extra_assert build (is_mmtk_object_safe core w object) not_mmtk_object
      >> ok (forward core w object, s, w)

  -- `for (new_objref, …) in moved_givtbl.drain()`
  move_entries : MovedGivtbl → W → W
  move_entries [] w = w
  move_entries ((new_objref, entry) ∷ entries) w =
      move_entries entries (up.move_givtbl entry.old_objref new_objref w)

  -- `WeakProcessor::update_generic_iv_tbl`; `order` is the order in which the map is drained. The
  -- numbers are those of the items moved, and of the entries before and after the cleaning.
  update_generic_iv_tbl_in :
      (order : MovedGivtbl → MovedGivtbl)
      → Mutex MovedGivtbl
      → ObjectClosure (Unit {0}) W
      → W
      → Under W (Mutex MovedGivtbl × ℕ × ℕ × ℕ)
  unfolding move_entries
  update_generic_iv_tbl_in order m closure w = do
    moved_givtbl ← try_lock m
    let items_moved = length moved_givtbl
    let drained = move_entries (order moved_givtbl) w
    let generic_iv_tbl = up.get_generic_iv_tbl drained
    let old_size = up.st_get_num_entries generic_iv_tbl drained
    r ← upcall up.cleanup_generic_iv_tbl closure tt drained
    ok (
      (
        record { status = m.status; value = [] },
        items_moved,
        old_size,
        up.st_get_num_entries generic_iv_tbl r.3,
      ),
      r.1,
      r.2,
      r.3,
    )

  -- `general_update_weak_table`: the numbers of entries before and after.
  general_update_weak_table :
      (W → Address) → (W → Script W) → ObjectClosure (Unit {0}) W → W → Under W (ℕ × ℕ)
  general_update_weak_table getter cleaner closure w = do
    let table = getter w
    let old_size = up.st_get_num_entries table w
    r ← upcall cleaner closure tt w
    ok ((old_size, up.st_get_num_entries table r.3), r.1, r.2, r.3)

  -- The module `unused`: `UpdateFrozenStringsTable` and `UpdateGlobalSymbolsTable`, which no one
  -- submits.
  update_frozen_strings_table : ObjectClosure (Unit {0}) W → W → Under W (ℕ × ℕ)
  unfolding general_update_weak_table
  update_frozen_strings_table =
      general_update_weak_table up.get_frozen_strings_table up.update_frozen_strings_table

  update_global_symbols_table : ObjectClosure (Unit {0}) W → W → Under W (ℕ × ℕ)
  unfolding general_update_weak_table
  update_global_symbols_table =
      general_update_weak_table up.get_global_symbols_table up.update_global_symbols_table

  -- The code of `UpdateFinalizerAndObjIdTables`: the three sizes before, and after.
  update_finalizer_and_obj_id : ObjectClosure (Unit {0}) W → W → Under W ((ℕ × ℕ × ℕ) × (ℕ × ℕ × ℕ))
  update_finalizer_and_obj_id closure w = do
    let finalizer_table = up.get_finalizer_table w
    let obj_to_id_table = up.get_obj_to_id_table w
    let id_to_obj_table = up.get_id_to_obj_table w
    r ← upcall up.update_finalizer_and_obj_id_tables closure tt w
    ok (
      (
        (
          up.st_get_num_entries finalizer_table w,
          up.st_get_num_entries obj_to_id_table w,
          up.st_get_num_entries id_to_obj_table w,
        ),
        (
          up.st_get_num_entries finalizer_table r.3,
          up.st_get_num_entries obj_to_id_table r.3,
          up.st_get_num_entries id_to_obj_table r.3,
        ),
      ),
      r.1,
      r.2,
      r.3,
    )

  -- `process_table` of each instance of `define_global_table_processor!`
  process_table :
      TableProcessor
      → (order : MovedGivtbl → MovedGivtbl) → Mutex MovedGivtbl
      → ObjectClosure (Unit {0}) W
      → W
      → Under W (Mutex MovedGivtbl)
  unfolding update_generic_iv_tbl_in general_update_weak_table update_finalizer_and_obj_id
  process_table update_generic_iv_tbl order m closure w =
      update_generic_iv_tbl_in order m closure w >>= λ r. ok (r.0.0, r.1, r.2, r.3)
  process_table update_finalizer_and_obj_id_tables order m closure w =
      update_finalizer_and_obj_id closure w >>= λ r. ok (m, r.1, r.2, r.3)
  process_table update_overloaded_cme_table order m closure w =
      general_update_weak_table up.get_overloaded_cme_table up.update_overloaded_cme_table closure w
      >>= λ r. ok (m, r.1, r.2, r.3)
  process_table update_ci_table order m closure w =
      general_update_weak_table up.get_ci_table up.update_ci_table closure w >>= λ r.
      ok (m, r.1, r.2, r.3)

  -- `GlobalTableProcessingWork::do_work`
  pub do_work :
      TableProcessor
      → (order : MovedGivtbl → MovedGivtbl) → Option (GcThreadTls (Unit {0}) W)
      → Mutex MovedGivtbl
      → W
      → Outcome (Mutex MovedGivtbl × GcThreadTls (Unit {0}) W × W)
  unfolding forward_object process_table
  do_work processor order vwt m w = do
    gc_tls ← from_vwt_check build vwt
    r ←
        with_object_closure build forward_object
          (λ closure s x. process_table processor order m closure x) gc_tls tt w
    ok (r.0, r.1, r.3)
