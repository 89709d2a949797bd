-- ===== src/Scanning/Roots.antt =====
-- mmtk/src/scanning.rs: `collect_object_roots_in` and the packets that scan roots. The calls of
-- `create_process_pinning_roots_work` are returned as the list of their arguments.
pub mod Laws
pub mod Reachable
mod Checks
mod Tests
use mmtk_ruby.Base.{
  ℕ, Bool, true, false, List, [], ◌∷◌, ◌++◌, length, leb, if◌then◌else◌, Option, Outcome, ok, ◌>>=◌,
  ◌>>◌, not_mmtk_object,
}
use mmtk_ruby.Build.{Build, extra_assert}
use mmtk_ruby.Vm.{ObjectReference, Core, RubyUpcalls, Script, Address}
use mmtk_ruby.Packet.{
  RootScanner, scan_vm_roots, scan_end_proc_roots, scan_global_tbl_roots, scan_yjit_roots,
  scan_global_symbols_roots, scan_finalizer_tbl_roots, scan_obj_to_id_tbl_roots, scan_misc_roots,
  scan_final_jobs_roots,
}
use mmtk_ruby.Abi.Closure.{VisitObject, ObjectClosure, upcall}
use mmtk_ruby.Abi.Tls.{GcThreadTls, from_vwt_check, with_object_closure}
use mmtk_ruby.Scanning.{is_mmtk_object_safe}

abbrev pub object_buffer_size : ℕ
object_buffer_size = 4096

-- What the closure captures: the buffer, and the work that the factory has created.
pub record RootLocals : Type 0 where
  pub buffer : List ObjectReference
  pub works : List (List ObjectReference)

abbrev pub no_roots : RootLocals
no_roots = record { buffer = []; works = [] }

pub push_root : RootLocals → ObjectReference → RootLocals
push_root s object =
    let buffer = s.buffer ++ object ∷ [] in
    if leb object_buffer_size (length buffer)
    then record { buffer = []; works = s.works ++ buffer ∷ [] }
    else record s { buffer = buffer }

-- The buffer that is left is passed on, unless it is empty.
flush_roots : List ObjectReference → List (List ObjectReference) → List (List ObjectReference)
flush_roots [] works = works
flush_roots (o ∷ os) works = works ++ (o ∷ os) ∷ []

module _ {W : Type 0} (build : Build) (core : Core W) where
  pub visit_root : VisitObject RootLocals W
  unfolding push_root
  visit_root s w object pin =
      extra_assert build (is_mmtk_object_safe core w object) not_mmtk_object
      >> ok (object, push_root s object, w)

  pub collect_object_roots_in :
      (ObjectClosure RootLocals W
        → RootLocals
        → W
        → Outcome (Unit {0} × ObjectClosure RootLocals W × RootLocals × W))
      → GcThreadTls RootLocals W
      → W
      → Outcome (List (List ObjectReference) × GcThreadTls RootLocals W × W)
  unfolding visit_root flush_roots
  collect_object_roots_in callback gc_tls w = do
    r ← with_object_closure build visit_root callback gc_tls no_roots w
    ok (flush_roots r.2.buffer r.2.works, r.1, r.3)

  -- The loop of `ScanWbUnprotectedRoots`: objects that are not reachable are skipped.
  scan_reachable :
      RubyUpcalls W
      → List ObjectReference
      → ObjectClosure RootLocals W
      → RootLocals
      → W
      → Outcome (Unit {0} × ObjectClosure RootLocals W × RootLocals × W)
  scan_reachable up [] closure s w = ok (tt, closure, s, w)
  scan_reachable up (object ∷ objects) closure s w =
      (if core.is_reachable w object
        then upcall (up.scan_object_ruby_style object) closure s w
        else ok (tt, closure, s, w))
      >>= λ r. scan_reachable up objects r.1 r.2 r.3

  -- `ScanWbUnprotectedRoots::do_work`
  pub scan_wb_unprotected_do_work :
      RubyUpcalls W
      → List ObjectReference
      → Option (GcThreadTls RootLocals W)
      → W
      → Outcome (List (List ObjectReference) × GcThreadTls RootLocals W × W)
  unfolding collect_object_roots_in scan_reachable
  scan_wb_unprotected_do_work up objects vwt w = do
    gc_tls ← from_vwt_check build vwt
    collect_object_roots_in (scan_reachable up objects) gc_tls w

  -- The code of each instance of `define_global_root_scanner!`.
  unfoldable pub scan_roots : RubyUpcalls W → RootScanner → W → Script W
  scan_roots up scan_vm_roots = up.scan_vm_roots
  scan_roots up scan_end_proc_roots = up.scan_end_proc_roots
  scan_roots up scan_global_tbl_roots = up.scan_global_tbl_roots
  scan_roots up scan_yjit_roots = up.scan_yjit_roots
  scan_roots up scan_global_symbols_roots = up.scan_global_symbols_roots
  scan_roots up scan_finalizer_tbl_roots = up.scan_finalizer_tbl_roots
  scan_roots up scan_obj_to_id_tbl_roots = up.scan_obj_to_id_tbl_roots
  scan_roots up scan_misc_roots = up.scan_misc_roots
  scan_roots up scan_final_jobs_roots = up.scan_final_jobs_roots

  -- `GlobaRootScanningWork::do_work`
  pub root_scanner_do_work :
      RubyUpcalls W
      → RootScanner
      → Option (GcThreadTls RootLocals W)
      → W
      → Outcome (List (List ObjectReference) × GcThreadTls RootLocals W × W)
  unfolding collect_object_roots_in scan_roots
  root_scanner_do_work up scanner vwt w = do
    gc_tls ← from_vwt_check build vwt
    collect_object_roots_in (upcall (scan_roots up scanner)) gc_tls w

  -- `VMScanning::scan_roots_in_mutator_thread`, for the mutator whose TLS is `mutator_tls`
  pub scan_roots_in_mutator_thread :
      RubyUpcalls W
      → Address
      → Address
      → Option (GcThreadTls RootLocals W)
      → W
      → Outcome (List (List ObjectReference) × GcThreadTls RootLocals W × W)
  unfolding collect_object_roots_in
  scan_roots_in_mutator_thread up mutator_tls tls vwt w = do
    gc_tls ← from_vwt_check build vwt
    collect_object_roots_in (upcall (up.scan_roots_in_mutator_thread mutator_tls tls)) gc_tls w
