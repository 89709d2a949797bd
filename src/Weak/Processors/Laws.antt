-- ===== src/Weak/Processors/Laws.antt =====
-- mmtk/src/weak_proc.rs: what the packets that update global tables do.
use mathlib.Core.List.{Permᴰ}
use mmtk_ruby.Base.{◌≡◌, refl, true, Bool, [], ◌∷◌, some, ok, not_mmtk_object, Mutex, free}
use mmtk_ruby.Build.{Build, extra_assert-true}
use mmtk_ruby.Vm.{ObjectReference, Core, RubyUpcalls, Script, finish, visit}
use mmtk_ruby.Givtbl.{MovedGivtbl}
use mmtk_ruby.Packet.{
  TableProcessor, update_generic_iv_tbl, update_finalizer_and_obj_id_tables,
  update_overloaded_cme_table, update_ci_table,
}
use mmtk_ruby.Abi.Closure.{run_script}
use mmtk_ruby.Abi.Closure.Laws.{registered, run_visits, run_script-registered}
use mmtk_ruby.Abi.Tls.{GcThreadTls, IsIdle, from_vwt_check-IsIdle, with_object_closure-ok}
use mmtk_ruby.Scanning.{is_mmtk_object_safe}
use mmtk_ruby.Weak.{forward}
use mmtk_ruby.Weak.Processors.{
  forward_object, move_entries, update_generic_iv_tbl_in, general_update_weak_table,
  update_finalizer_and_obj_id, process_table, do_work,
}

-- CRuby code in which every visit answers with the forwarded reference.
abbrev pub forwarded : {W : Type 0} → Core W → Script W → W
forwarded core (finish w) = w
forwarded core (visit w object pin rest) = forwarded core (rest w (forward core w object))

abbrev pub VisitsObjects : {W : Type 0} → Core W → Script W → Type 0
VisitsObjects core (finish w) = Unit
VisitsObjects core (visit w object pin rest) =
    (is_mmtk_object_safe core w object ≡ true) × VisitsObjects core (rest w (forward core w object))

-- One call of `move_givtbl` for each entry.
abbrev pub moved : {W : Type 0} → RubyUpcalls W → MovedGivtbl → W → W
moved up [] w = w
moved up ((new_objref, entry) ∷ entries) w =
    moved up entries (up.move_givtbl entry.old_objref new_objref w)

-- The code of CRuby that each packet runs, and the state in which it starts.
abbrev pub cleaner : {W : Type 0} → RubyUpcalls W → TableProcessor → W → Script W
cleaner up update_generic_iv_tbl = up.cleanup_generic_iv_tbl
cleaner up update_finalizer_and_obj_id_tables = up.update_finalizer_and_obj_id_tables
cleaner up update_overloaded_cme_table = up.update_overloaded_cme_table
cleaner up update_ci_table = up.update_ci_table

abbrev pub before : {W : Type 0} → RubyUpcalls W → TableProcessor → MovedGivtbl → W → W
before up update_generic_iv_tbl entries w = moved up entries w
before up _ entries w = w

abbrev pub left : TableProcessor → MovedGivtbl → MovedGivtbl
left update_generic_iv_tbl entries = []
left _ entries = entries

module _ {W : Type 0} (build : Build) (core : Core W) (up : RubyUpcalls W) where
  forward_object-ok :
      (w : W) (object : ObjectReference) (pin : Bool)
      → is_mmtk_object_safe core w object ≡ true
      → forward_object build core up tt w object pin ≡ ok (forward core w object, tt, w)
  unfolding forward_object
  forward_object-ok w object pin h = rw (h, extra_assert-true build not_mmtk_object) refl

  run_visits-forwarded :
      (code : Script W)
      → VisitsObjects core code
      → run_visits (forward_object build core up) code tt ≡ ok (tt, forwarded core code)
  unfolding run_visits
  run_visits-forwarded (finish w) h = refl
  run_visits-forwarded (visit w object pin rest) h =
      rw (forward_object-ok w object pin h.0)
        (run_visits-forwarded (rest w (forward core w object)) h.1)

  run_script-forwarded :
      (code : Script W)
      → VisitsObjects core code
      → run_script (registered (forward_object build core up)) code tt
        ≡ ok (tt, forwarded core code)
  run_script-forwarded code h =
      rw (run_script-registered (forward_object build core up) code tt, run_visits-forwarded code h)
        refl

  move_entries-moved :
      (entries : MovedGivtbl) (w : W) → move_entries build core up entries w ≡ moved up entries w
  unfolding move_entries
  move_entries-moved [] w = refl
  move_entries-moved ((new_objref, entry) ∷ entries) w =
      move_entries-moved entries (up.move_givtbl entry.old_objref new_objref w)

  process_table-forwarded :
      (processor : TableProcessor) (order : MovedGivtbl → MovedGivtbl) (m : Mutex MovedGivtbl)
      (w : W)
      → m.status ≡ free
      → VisitsObjects core (cleaner up processor (before up processor (order m.value) w))
      → process_table build core up processor order m (registered (forward_object build core up)) w
        ≡ ok (
          record { status = m.status; value = left processor m.value },
          registered (forward_object build core up),
          tt,
          forwarded core (cleaner up processor (before up processor (order m.value) w)),
        )
  unfolding process_table update_generic_iv_tbl_in general_update_weak_table
      update_finalizer_and_obj_id
  process_table-forwarded update_generic_iv_tbl order m w h v =
      rw
        (
          h,
          move_entries-moved (order m.value) w,
          run_script-forwarded (up.cleanup_generic_iv_tbl (moved up (order m.value) w)) v,
        )
        refl
  process_table-forwarded update_finalizer_and_obj_id_tables order m w h v =
      rw (run_script-forwarded (up.update_finalizer_and_obj_id_tables w) v) refl
  process_table-forwarded update_overloaded_cme_table order m w h v =
      rw (run_script-forwarded (up.update_overloaded_cme_table w) v) refl
  process_table-forwarded update_ci_table order m w h v =
      rw (run_script-forwarded (up.update_ci_table w) v) refl

  -- On an idle worker, while nobody holds the lock of the moved entries, and if CRuby asks for MMTk
  -- objects only: the packet runs the code of CRuby for its table, in which each reference is
  -- answered by the forwarded one, and the worker is idle again. The packet for the generic
  -- instance variables reports each moved object to CRuby first, once and in some order, and leaves
  -- no entry behind; the others leave the entries alone.
  pub do_work-forwarded :
      (processor : TableProcessor) (order : MovedGivtbl → MovedGivtbl)
      (tls : GcThreadTls (Unit {0}) W) (m : Mutex MovedGivtbl) (w : W)
      → ((entries : MovedGivtbl) → Permᴰ (order entries) entries)
      → IsIdle tls
      → m.status ≡ free
      → VisitsObjects core (cleaner up processor (before up processor (order m.value) w))
      → (entries : MovedGivtbl) × Permᴰ entries m.value
        × (do_work build core up processor order (some tls) m w
            ≡ ok (
              record { status = free; value = left processor m.value },
              tls,
              forwarded core (cleaner up processor (before up processor entries w)),
            ))
  unfolding do_work
  do_work-forwarded processor order tls m w perm idle h v = (
    order m.value,
    perm m.value,
    rw
        (
          from_vwt_check-IsIdle build tls idle,
          with_object_closure-ok build (forward_object build core up)
              (λ closure s x. process_table build core up processor order m closure x) tls tt w
              {c = registered (forward_object build core up)} idle
              (process_table-forwarded processor order m w h v),
          h,
        )
        refl,
  )
