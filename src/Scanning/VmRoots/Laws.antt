-- ===== src/Scanning/VmRoots/Laws.antt =====
-- mmtk/src/scanning.rs: which packets `scan_vm_specific_roots` submits.
use mathlib.Core.List.{Permᴰ}
use mmtk_ruby.Base.{
  ◌≡◌, refl, ap, Bool, true, false, List, [], ◌∷◌, map, some, ok, Mutex, free, chunks, concat,
  length-perm, concat-chunks, IsChunked, chunks-IsChunked, arith,
}
use mmtk_ruby.Base.HashSet.{HashSet}
use mmtk_ruby.Build.{Build}
use mmtk_ruby.Vm.{ObjectReference, Core}
use mmtk_ruby.Stage.{prepare}
use mmtk_ruby.Packet.{
  Packet, root_scanner, scan_wb_unprotected_roots, Submission, scan_vm_roots, scan_end_proc_roots,
  scan_global_tbl_roots, scan_yjit_roots, scan_global_symbols_roots, scan_finalizer_tbl_roots,
  scan_obj_to_id_tbl_roots, scan_misc_roots, scan_final_jobs_roots,
}
use mmtk_ruby.Abi.Tls.{GcThreadTls, IsIdle, from_vwt_check-IsIdle, worker-IsIdle}
use mmtk_ruby.Utils.Chunked.Laws.{into_vecs-extend}
use mmtk_ruby.Scanning.VmRoots.{
  is_nursery, prepare_batch, gen_wb_unprotected_work, scan_vm_specific_roots,
}

-- A packet for each set of global roots.
abbrev pub global_packets : List Packet
global_packets =
    root_scanner scan_vm_roots
    ∷ root_scanner scan_end_proc_roots
    ∷ root_scanner scan_global_tbl_roots
    ∷ root_scanner scan_yjit_roots
    ∷ root_scanner scan_global_symbols_roots
    ∷ root_scanner scan_finalizer_tbl_roots
    ∷ root_scanner scan_obj_to_id_tbl_roots
    ∷ root_scanner scan_misc_roots
    ∷ root_scanner scan_final_jobs_roots
    ∷ []

abbrev at_prepare : List Packet → Submission
at_prepare packets = record { stage = prepare; packets = packets }

-- What is submitted for some WB-unprotected objects: one packet for each list.
abbrev pub wb_submissions : List (List ObjectReference) → List Submission
wb_submissions [] = []
wb_submissions (v ∷ vs) = at_prepare (map scan_wb_unprotected_roots (v ∷ vs)) ∷ []

-- All that is submitted.
abbrev pub root_submissions : List (List ObjectReference) → List Submission
root_submissions vs = at_prepare global_packets ∷ wb_submissions vs

abbrev pub objects_to_scan : Bool → HashSet → HashSet
objects_to_scan true objects = objects
objects_to_scan false objects = []

one_submission :
    (vs : List (List ObjectReference)) (o : ObjectReference) (os : HashSet)
    → Permᴰ (concat vs) (o ∷ os)
    → prepare_batch (map scan_wb_unprotected_roots vs) ∷ [] ≡ wb_submissions vs
one_submission [] o os perm = absurd (omega (arith, length-perm perm))
one_submission (v ∷ vs) o os perm = refl

module _ {S W : Type 0} (build : Build) (core : Core W) where
  -- What the second part submits, whichever branch it takes.
  Covers : Bool → (HashSet → List ObjectReference) → GcThreadTls S W → HashSet → W → Type 0
  Covers nursery order tls objects w =
      (vs : List (List ObjectReference)) × (gen_wb_unprotected_work build core order tls
          (record { status = free; value = objects }) w
        ≡ ok (wb_submissions vs))
      × Permᴰ (concat vs) (objects_to_scan nursery objects)
      × IsChunked 128 vs

  gen_wb_unprotected_work-Covers :
      (nursery : Bool) (order : HashSet → List ObjectReference) (tls : GcThreadTls S W)
      (objects : HashSet) (w : W)
      → ((s : HashSet) → Permᴰ (order s) s)
      → IsIdle tls
      → is_nursery (core.generational w) ≡ nursery
      → Covers nursery order tls objects w
  unfolding gen_wb_unprotected_work Covers
  gen_wb_unprotected_work-Covers true order tls [] w perm idle young =
      ([], rw young refl, Permᴰ.nil, tt)
  gen_wb_unprotected_work-Covers true order tls (o ∷ os) w perm idle young =
      let objects = order (o ∷ os) in
      let same : Permᴰ (concat (chunks 128 objects)) (o ∷ os) =
        rw (concat-chunks 128 objects (omega arith)) (perm (o ∷ os)) in
      (
        chunks 128 objects,
        rw (young, worker-IsIdle tls idle, into_vecs-extend 128 objects (omega arith))
            (ap ok (one_submission (chunks 128 objects) o os same)),
        same,
        chunks-IsChunked 128 objects (omega arith),
      )
  gen_wb_unprotected_work-Covers false order tls objects w perm idle old =
      ([], rw old refl, Permᴰ.nil, tt)

  -- On an idle worker, while nobody holds the lock, and in whatever order the set is iterated over:
  -- nine packets are submitted to `Prepare` in one batch, one for each set of global roots. In a
  -- nursery GC, the WB-unprotected objects are submitted to `Prepare` in packets of 128, of which the
  -- last may be smaller and none is empty, each object of the set in exactly one place; in any
  -- other GC there are no such packets. Nothing else is submitted.
  pub scan_vm_specific_roots-covers :
      (order : HashSet → List ObjectReference) (tls : GcThreadTls S W) (wb : Mutex HashSet) (w : W)
      → ((s : HashSet) → Permᴰ (order s) s)
      → IsIdle tls
      → wb.status ≡ free
      → (vs : List (List ObjectReference)) × (scan_vm_specific_roots build core order
            (some tls)
            wb
            w
          ≡ ok (root_submissions vs))
        × Permᴰ (concat vs) (objects_to_scan (is_nursery (core.generational w)) wb.value)
        × IsChunked 128 vs
  unfolding scan_vm_specific_roots Covers
  scan_vm_specific_roots-covers order tls wb w perm idle h =
      let (vs, e, c, k) =
        gen_wb_unprotected_work-Covers (is_nursery (core.generational w)) order tls wb.value w perm
          idle refl in
      (vs, rw (from_vwt_check-IsIdle build tls idle, worker-IsIdle tls idle, h, e) refl, c, k)
