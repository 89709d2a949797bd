-- ===== src/Cycle/Closure.antt =====
-- mmtk/src/weak_proc.rs: the packets that `process_weak_stuff` submits, run by one worker in the order
-- of submission, and then those that the counters release.
mod Laws
mod Books
mod Entries
mod Ordered
mod Refines
mod Steps
mod Tests
use mmtk_ruby.Base.{
  ℕ, ◌==◌, if◌then◌else◌, Bool, List, [], ◌∷◌, ◌++◌, Option, some, Outcome, ok, ◌>>=◌, Mutex,
}
use mmtk_ruby.Base.HashSet.{HashSet}
use mmtk_ruby.Build.{Build}
use mmtk_ruby.Vm.{ObjectReference, Core, RubyUpcalls}
use mmtk_ruby.Givtbl.{MovedGivtbl}
use mmtk_ruby.Packet.{
  Packet, process_obj_free_candidates, table_processor, update_wb_unprotected_objects_list,
  update_table_entries, update_table_bins,
}
use mmtk_ruby.Abi.Tls.{GcThreadTls}
use mmtk_ruby.Utils.AfterAll.{AfterAll}
use mmtk_ruby.Weak.{WeakProcessor}
use mmtk_ruby.Weak.ObjFree as ObjFree
use mmtk_ruby.Weak.Processors as Processors
use mmtk_ruby.Weak.WbList as WbList
use mmtk_ruby.Weak.Parallel.{entries_do_work, bins_do_work}

-- What the packets change: the worker's TLS, parts of the binding, the counters of the two weak
-- tables, and CRuby.
pub record Closing (W : Type 0) : Type 0 where
  pub tls : GcThreadTls (Unit {0}) W
  pub weak_proc : WeakProcessor
  pub moved_givtbl : Mutex MovedGivtbl
  pub wb_unprotected : Mutex HashSet
  pub strings : AfterAll Packet
  pub symbols : AfterAll Packet
  pub vm : W

-- The counter 0 is that of the frozen strings.
abbrev pub counter : {W : Type 0} → ℕ → Closing W → AfterAll Packet
counter name s = if name == 0 then s.strings else s.symbols

abbrev pub set_counter : {W : Type 0} → ℕ → AfterAll Packet → Closing W → Closing W
set_counter name a s = if name == 0 then record s { strings = a } else record s { symbols = a }

-- The orders are those in which a map is drained and a set is iterated over.
module _ {W : Type 0} (build : Build) (core : Core W) (up : RubyUpcalls W)
    (drain : MovedGivtbl → MovedGivtbl) (order : HashSet → List ObjectReference) where
  -- The packets that one packet releases, and the new state. The packets of PPPs are left out.
  pub run_packet : Packet → Closing W → Outcome (List Packet × Closing W)
  run_packet process_obj_free_candidates s = do
    r ← ObjFree.do_work core up s.weak_proc s.vm
    ok ([], record s { weak_proc = r.0; vm = r.1 })
  run_packet (table_processor processor) s = do
    r ← Processors.do_work build core up processor drain (some s.tls) s.moved_givtbl s.vm
    ok ([], record s { moved_givtbl = r.0; tls = r.1; vm = r.2 })
  run_packet update_wb_unprotected_objects_list s = do
    m ← WbList.do_work core s.vm order s.wb_unprotected
    ok ([], record s { wb_unprotected = m })
  run_packet (update_table_entries p) s =
      let d = entries_do_work up p (counter p.after_all s) s.vm in
      ok (d.released, record (set_counter p.after_all d.after_all s) { vm = d.vm })
  run_packet (update_table_bins p) s = ok ([], record s { vm = bins_do_work up p s.vm })
  run_packet _ s = ok ([], s)

  -- The packets in turn, and all that they release.
  pub run_packets : List Packet → Closing W → Outcome (List Packet × Closing W)
  unfolding run_packet
  run_packets [] s = ok ([], s)
  run_packets (p ∷ ps) s = do
    r ← run_packet p s
    rest ← run_packets ps r.1
    ok (r.0 ++ rest.0, rest.1)
