-- ===== src/Cycle/Roots.antt =====
-- mmtk/src/scanning.rs: all the roots of one collection, from the submission of the packets to the
-- work that reaches mmtk-core.
pub mod Jobs
use mathlib.Core.List.{Permᴰ, append_assoc, append-nil}
use mmtk_ruby.Base.{
  if◌then◌else◌, ◌≤◌, ◌<◌, ◌≡◌, refl, sym, ap, ◌∙◌, arith, List, [], ◌∷◌, ◌++◌, map, concat, All,
  IsChunked, chunks, concat-chunks, chunks-IsChunked, length, some, Outcome, ok, ◌>>=◌, Mutex, free,
}
use mmtk_ruby.Base.HashSet.{HashSet}
use mmtk_ruby.Build.{Build}
use mmtk_ruby.Vm.{Address, ObjectReference, Core, RubyUpcalls, Script, visits}
use mmtk_ruby.Packet.{Packet, RootScanner, root_scanner, scan_wb_unprotected_roots, Submission}
use mmtk_ruby.Abi.Tls.{GcThreadTls, IsIdle}
use mmtk_ruby.Scanning.Roots.{
  RootLocals, root_scanner_do_work, scan_wb_unprotected_do_work, scan_roots_in_mutator_thread,
}
use mmtk_ruby.Scanning.Roots.Laws.{
  VisitsObjects, root_set, root_scanner_do_work-chunks, scan_roots_in_mutator_thread-chunks,
}
use mmtk_ruby.Scanning.Roots.Reachable.{reachable_children, scan_wb_unprotected_do_work-reachable}
use mmtk_ruby.Scanning.VmRoots.{is_nursery, scan_vm_specific_roots}
use mmtk_ruby.Scanning.VmRoots.Laws.{
  global_packets, wb_submissions, root_submissions, objects_to_scan, scan_vm_specific_roots-covers,
}
use mmtk_ruby.Cycle.Roots.Jobs.{
  RootJob, packet, mutator, IsBatch, IsSafe, run_jobs, run_jobs-batches, all_roots, roots_of,
  packets_of, IsSafe-wb, All-jobs,
}

module _ {W : Type 0} (build : Build) (core : Core W) (up : RubyUpcalls W)
    (tls_addr : Address) where
  -- Pieces of CRuby code in turn: the objects that they visit, and the last state.
  abbrev pub reported : List (W → Script W) → W → List ObjectReference × W
  reported [] w = ([], w)
  reported (code ∷ codes) w =
      let here = visits (code w) in
      let later = reported codes here.1 in (here.0 ++ later.0, later.1)

  -- The code for the nine sets of global roots, and for the stacks of some mutators.
  abbrev pub global_roots : List (W → Script W)
  global_roots =
      up.scan_vm_roots ∷ up.scan_end_proc_roots ∷ up.scan_global_tbl_roots ∷ up.scan_yjit_roots
      ∷ up.scan_global_symbols_roots ∷ up.scan_finalizer_tbl_roots ∷ up.scan_obj_to_id_tbl_roots
      ∷ up.scan_misc_roots ∷ up.scan_final_jobs_roots ∷ []

  abbrev pub stacks : List Address → List (W → Script W)
  stacks [] = []
  stacks (m ∷ ms) = up.scan_roots_in_mutator_thread m tls_addr ∷ stacks ms

  -- All the roots of a collection: the global ones, the children of those of `objects` that are
  -- reachable when their turn comes, and the stacks of the mutators.
  abbrev pub expected_roots :
      (objects : List ObjectReference) → List Address → W → List ObjectReference × W
  expected_roots objects ms w =
      let global = reported global_roots w in
      let young = reachable_children build core up objects global.1 in
      let local = reported (stacks ms) young.1 in ((global.0 ++ young.0) ++ local.0, local.1)

  all_roots-append :
      (xs ys : List RootJob) (w : W)
      → all_roots build core up tls_addr (xs ++ ys) w ≡ (
        (all_roots build core up tls_addr xs w).0
            ++ (all_roots build core up tls_addr ys (all_roots build core up tls_addr xs w).1).0,
        (all_roots build core up tls_addr ys (all_roots build core up tls_addr xs w).1).1,
      )
  unfolding all_roots
  all_roots-append [] ys w = refl
  all_roots-append (x ∷ xs) ys w =
      let here = roots_of build core up tls_addr x w in
      rw
        (
          all_roots-append xs ys here.1,
          append_assoc here.0 (all_roots build core up tls_addr xs here.1).0
              (all_roots build core up tls_addr ys
                (all_roots build core up tls_addr xs here.1).1).0,
        )
        refl

  all_roots-global_roots :
      (w : W)
      → all_roots build core up tls_addr (map packet global_packets) w ≡ reported global_roots w
  unfolding all_roots roots_of
  all_roots-global_roots w = refl

  all_roots-stacks :
      (ms : List Address) (w : W)
      → all_roots build core up tls_addr (map mutator ms) w ≡ reported (stacks ms) w
  unfolding all_roots roots_of
  all_roots-stacks [] w = refl
  all_roots-stacks (m ∷ ms) w =
      rw (all_roots-stacks ms (visits (up.scan_roots_in_mutator_thread m tls_addr w)).1) refl

  reachable_children-append :
      (xs ys : List ObjectReference) (w : W)
      → reachable_children build core up (xs ++ ys) w ≡ (
        (reachable_children build core up xs w).0
            ++ (reachable_children build core up ys (reachable_children build core up xs w).1).0,
        (reachable_children build core up ys (reachable_children build core up xs w).1).1,
      )
  reachable_children-append [] ys w = refl
  reachable_children-append (x ∷ xs) ys w =
      let here : List ObjectReference × W =
        if core.is_reachable w x then visits (up.scan_object_ruby_style x w) else ([], w) in
      rw
        (
          reachable_children-append xs ys here.1,
          append_assoc here.0 (reachable_children build core up xs here.1).0
              (reachable_children build core up ys
                (reachable_children build core up xs here.1).1).0,
        )
        refl

  all_roots-wb :
      (vs : List (List ObjectReference)) (w : W)
      → all_roots build core up tls_addr (map packet (map scan_wb_unprotected_roots vs)) w
        ≡ reachable_children build core up (concat vs) w
  unfolding all_roots roots_of
  all_roots-wb [] w = refl
  all_roots-wb (v ∷ vs) w =
      let here = reachable_children build core up v w in
      rw (all_roots-wb vs here.1) (sym (reachable_children-append v (concat vs) w))

  all_roots-wb_submissions :
      (vs : List (List ObjectReference)) (w : W)
      → all_roots build core up tls_addr (packets_of build core up tls_addr (wb_submissions vs)) w
        ≡ reachable_children build core up (concat vs) w
  unfolding all_roots
  all_roots-wb_submissions [] w = refl
  all_roots-wb_submissions (v ∷ vs) w =
      ap (λ jobs. all_roots build core up tls_addr jobs w)
        (append-nil (map packet (map scan_wb_unprotected_roots (v ∷ vs))))
      ∙ all_roots-wb (v ∷ vs) w

  -- The jobs of a collection.
  abbrev pub root_jobs : List (List ObjectReference) → List Address → List RootJob
  root_jobs vs ms = packets_of build core up tls_addr (root_submissions vs) ++ map mutator ms

  all_roots-expected_roots :
      (vs : List (List ObjectReference)) (ms : List Address) (w : W)
      → all_roots build core up tls_addr (root_jobs vs ms) w ≡ expected_roots (concat vs) ms w
  all_roots-expected_roots vs ms w =
      let global = reported global_roots w in
      let young = reachable_children build core up (concat vs) global.1 in
      rw
        (
          all_roots-append (packets_of build core up tls_addr (root_submissions vs))
              (map mutator ms) w,
          all_roots-append (map packet global_packets)
              (packets_of build core up tls_addr (wb_submissions vs)) w,
          all_roots-global_roots w,
          all_roots-wb_submissions vs global.1,
          all_roots-stacks ms young.1,
        )
        refl

  module _
      (scanners : (scanner : RootScanner) (x : W)
        → VisitsObjects build core (root_set up scanner x))
      (objects : (object : ObjectReference) (x : W)
        → VisitsObjects build core (up.scan_object_ruby_style object x))
      (threads : (m : Address) (x : W)
        → VisitsObjects build core (up.scan_roots_in_mutator_thread m tls_addr x)) where
    packets_of-IsSafe :
        (subs : List Submission)
        → All (IsSafe build core up tls_addr) (packets_of build core up tls_addr subs)
    packets_of-IsSafe [] = tt
    packets_of-IsSafe (s ∷ ss) =
        All-jobs build core up tls_addr (map packet s.packets)
          (packets_of build core up tls_addr ss)
          (IsSafe-wb build core up tls_addr objects s.packets scanners) (packets_of-IsSafe ss)

    mutators-IsSafe : (ms : List Address) → All (IsSafe build core up tls_addr) (map mutator ms)
    unfolding IsSafe
    mutators-IsSafe [] = tt
    mutators-IsSafe (m ∷ ms) = (threads m, mutators-IsSafe ms)

    -- If CRuby only ever reports MMTk objects as roots and as children, on an idle worker and while
    -- nobody holds the lock of the WB-unprotected objects, in whatever order these are iterated
    -- over: nine packets are submitted, one for each set of global roots, and in a nursery GC packets
    -- that hold each WB-unprotected object once. When all of them and the scans of the given mutators
    -- run in turn from any state, no job fails, the worker is idle at the end, and what reaches
    -- mmtk-core is exactly what CRuby visits, in order, in batches of 1 to 4096 objects: for its nine
    -- sets of global roots, then the children of each WB-unprotected object that is reachable when
    -- its turn comes, then for the stack of each mutator.
    pub root_scan_complete :
        (order : HashSet → List ObjectReference) (tls : GcThreadTls RootLocals W)
        (wb : Mutex HashSet) (ms : List Address) (w w' : W)
        → ((s : HashSet) → Permᴰ (order s) s)
        → IsIdle tls
        → wb.status ≡ free
        → (vs works : List (List ObjectReference)) × (scan_vm_specific_roots build core order
              (some tls)
              wb
              w
            ≡ ok (root_submissions vs))
          × Permᴰ (concat vs) (objects_to_scan (is_nursery (core.generational w)) wb.value)
          × (run_jobs build core up tls_addr (root_jobs vs ms) tls w'
              ≡ ok (works, tls, (expected_roots (concat vs) ms w').1))
          × (concat works ≡ (expected_roots (concat vs) ms w').0)
          × All IsBatch works
    root_scan_complete order tls wb ms w w' perm idle h =
        let (vs, e, covers, _) =
          scan_vm_specific_roots-covers build core order tls wb w perm idle h in
        let subs = root_submissions vs in
        let (works, run, all, batches) =
          run_jobs-batches build core up tls_addr (root_jobs vs ms) tls w' idle (
            All-jobs build core up tls_addr (packets_of build core up tls_addr subs)
              (map mutator ms) (packets_of-IsSafe subs) (mutators-IsSafe ms)) in
        let same = all_roots-expected_roots vs ms w' in
        (
          vs,
          works,
          e,
          covers,
          run ∙ ap (λ r. ok (works, tls, r.1)) same,
          all ∙ ap (λ r. r.0) same,
          batches,
        )
