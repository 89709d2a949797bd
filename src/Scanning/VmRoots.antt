-- ===== src/Scanning/VmRoots.antt =====
-- mmtk/src/scanning.rs: `scan_vm_specific_roots`, which submits the packets that scan roots.
pub mod Laws
mod Tests
use mmtk_ruby.Base.{
  ℕ, Bool, true, false, List, [], ◌∷◌, map, if◌then◌else◌, Option, none, some, Outcome, ok, ◌>>=◌,
  Mutex, try_lock, is_empty,
}
use mmtk_ruby.Base.HashSet.{HashSet}
use mmtk_ruby.Build.{Build}
use mmtk_ruby.Stage.{prepare}
use mmtk_ruby.Vm.{ObjectReference, Core}
use mmtk_ruby.Packet.{
  Packet, root_scanner, scan_wb_unprotected_roots, Submission, scan_vm_roots, scan_end_proc_roots,
  scan_global_tbl_roots, scan_yjit_roots, scan_global_symbols_roots, scan_finalizer_tbl_roots,
  scan_obj_to_id_tbl_roots, scan_misc_roots, scan_final_jobs_roots,
}
use mmtk_ruby.Abi.Tls.{GcThreadTls, from_vwt_check, worker}
use mmtk_ruby.Utils.Chunked.{new, extend, into_vecs}

abbrev pub root_scanning_work_packets : List Packet
root_scanning_work_packets =
    root_scanner scan_vm_roots
    ∷ root_scanner scan_end_proc_roots
    ∷ root_scanner scan_global_tbl_roots
    ∷ root_scanner scan_yjit_roots
    ∷ root_scanner scan_global_symbols_roots
    ∷ root_scanner scan_finalizer_tbl_roots
    ∷ root_scanner scan_obj_to_id_tbl_roots
    ∷ root_scanner scan_misc_roots
    ∷ root_scanner scan_final_jobs_roots
    ∷ []

-- `Option::is_some_and` of a flag
abbrev pub is_nursery : Option Bool → Bool
is_nursery none = false
is_nursery (some b) = b

abbrev pub prepare_batch : List Packet → Submission
prepare_batch packets = record { stage = prepare; packets = packets }

module _ {S W : Type 0} (build : Build) (core : Core W) where
  -- The block `'gen_wb_unprotected_work`. `order` is the order in which the set is iterated over.
  gen_wb_unprotected_work :
      (order : HashSet → List ObjectReference)
      → GcThreadTls S W
      → Mutex HashSet
      → W
      → Outcome (List Submission)
  gen_wb_unprotected_work order gc_tls wb w =
      if is_nursery (core.generational w)
      then (do
        objects ← try_lock wb
        let packets = map scan_wb_unprotected_roots (into_vecs (extend (new 128) (order objects)))
        if is_empty objects
            then ok []
            else (worker gc_tls >>= λ _. ok (prepare_batch packets ∷ [])))
      else ok []

  -- `VMScanning::scan_vm_specific_roots`: what it adds to the bucket `Prepare`.
  pub scan_vm_specific_roots :
      (order : HashSet → List ObjectReference)
      → Option (GcThreadTls S W)
      → Mutex HashSet
      → W
      → Outcome (List Submission)
  scan_vm_specific_roots order vwt wb w = do
    gc_tls ← from_vwt_check build vwt
    scheduler ← worker gc_tls
    more ← gen_wb_unprotected_work order gc_tls wb w
    ok (prepare_batch root_scanning_work_packets ∷ more)
