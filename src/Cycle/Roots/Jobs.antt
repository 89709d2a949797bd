-- ===== src/Cycle/Roots/Jobs.antt =====
-- mmtk/src/scanning.rs: what the workers do for the roots of one collection, job by job.
use mathlib.Core.List.{append_assoc}
use mmtk_ruby.Base.{
  ◌≤◌, ◌<◌, ◌≡◌, refl, sym, ap, ◌∙◌, arith, List, [], ◌∷◌, ◌++◌, map, concat, All, IsChunked,
  chunks, concat-chunks, chunks-IsChunked, length, some, Outcome, ok, ◌>>=◌,
}
use mmtk_ruby.Build.{Build}
use mmtk_ruby.Vm.{Address, ObjectReference, Core, RubyUpcalls, visits}
use mmtk_ruby.Packet.{Packet, RootScanner, root_scanner, scan_wb_unprotected_roots, Submission}
use mmtk_ruby.Abi.Tls.{GcThreadTls, IsIdle}
use mmtk_ruby.Scanning.Roots.{
  RootLocals, root_scanner_do_work, scan_wb_unprotected_do_work, scan_roots_in_mutator_thread,
}
use mmtk_ruby.Scanning.Roots.Laws.{
  VisitsObjects, root_set, root_scanner_do_work-chunks, scan_roots_in_mutator_thread-chunks,
}
use mmtk_ruby.Scanning.Roots.Reachable.{reachable_children, scan_wb_unprotected_do_work-reachable}

-- What a worker does for the roots: a packet of the bucket `Prepare`, or the roots of a mutator.
pub data RootJob : Type 0 where
  packet : Packet → RootJob
  mutator : Address → RootJob

-- A batch of roots that is neither empty nor too long.
abbrev pub IsBatch : List ObjectReference → Type 0
IsBatch batch = (0 < length batch) × (length batch ≤ 4096)

IsChunked-batches : (works : List (List ObjectReference)) → IsChunked 4096 works → All IsBatch works
IsChunked-batches [] h = tt
IsChunked-batches (c ∷ []) h = (h, tt)
IsChunked-batches (c ∷ d ∷ r) h = ((omega arith, omega arith), IsChunked-batches (d ∷ r) h.1)

All-append :
    (xs ys : List (List ObjectReference)) → All IsBatch xs → All IsBatch ys → All IsBatch (xs ++ ys)
All-append [] ys h k = k
All-append (x ∷ xs) ys h k = (h.0, All-append xs ys h.1 k)

concat-append : (xs ys : List (List ObjectReference)) → concat (xs ++ ys) ≡ concat xs ++ concat ys
concat-append [] ys = refl
concat-append (x ∷ xs) ys =
    ap (λ r. x ++ r) (concat-append xs ys) ∙ sym (append_assoc x (concat xs) (concat ys))

module _ {W : Type 0} (build : Build) (core : Core W) (up : RubyUpcalls W)
    (tls_addr : Address) where
  abbrev pub Scanned : Type 0
  Scanned = Outcome (List (List ObjectReference) × GcThreadTls RootLocals W × W)

  -- Only the packets that scan roots create work for roots.
  unfoldable pub run_job : RootJob → GcThreadTls RootLocals W → W → Scanned
  run_job (packet (root_scanner scanner)) tls w =
      root_scanner_do_work build core up scanner (some tls) w
  run_job (packet (scan_wb_unprotected_roots objects)) tls w =
      scan_wb_unprotected_do_work build core up objects (some tls) w
  run_job (packet _) tls w = ok ([], tls, w)
  run_job (mutator m) tls w = scan_roots_in_mutator_thread build core up m tls_addr (some tls) w

  -- The jobs in turn, and all the batches.
  unfoldable pub run_jobs : List RootJob → GcThreadTls RootLocals W → W → Scanned
  unfolding run_job
  run_jobs [] tls w = ok ([], tls, w)
  run_jobs (job ∷ jobs) tls w = do
    r ← run_job job tls w
    rest ← run_jobs jobs r.1 r.2
    ok (r.0 ++ rest.0, rest.1, rest.2)

  -- The objects that CRuby reports for a job, and the state at the end.
  unfoldable pub roots_of : RootJob → W → List ObjectReference × W
  roots_of (packet (root_scanner scanner)) w = visits (root_set up scanner w)
  roots_of (packet (scan_wb_unprotected_roots objects)) w =
      reachable_children build core up objects w
  roots_of (packet _) w = ([], w)
  roots_of (mutator m) w = visits (up.scan_roots_in_mutator_thread m tls_addr w)

  unfoldable pub all_roots : List RootJob → W → List ObjectReference × W
  unfolding roots_of
  all_roots [] w = ([], w)
  all_roots (job ∷ jobs) w =
      let here = roots_of job w in let later = all_roots jobs here.1 in (here.0 ++ later.0, later.1)

  -- CRuby reports MMTk objects only, in every state.
  unfoldable pub IsSafe : RootJob → Type 0
  IsSafe (packet (root_scanner scanner)) =
      (x : W) → VisitsObjects build core (root_set up scanner x)
  IsSafe (packet (scan_wb_unprotected_roots objects)) =
      All (λ object. (x : W) → VisitsObjects build core (up.scan_object_ruby_style object x))
        objects
  IsSafe (packet _) = Unit
  IsSafe (mutator m) =
      (x : W) → VisitsObjects build core (up.scan_roots_in_mutator_thread m tls_addr x)

  run_job-batches :
      (job : RootJob) (tls : GcThreadTls RootLocals W) (w : W)
      → IsIdle tls
      → IsSafe job
      → (works : List (List ObjectReference)) × (run_job job tls w
          ≡ ok (works, tls, (roots_of job w).1))
        × (concat works ≡ (roots_of job w).0)
        × All IsBatch works
  unfolding run_job roots_of IsSafe
  run_job-batches (packet (root_scanner scanner)) tls w idle safe =
      let (works, e, c, k) =
        root_scanner_do_work-chunks build core up scanner tls w idle (safe w) in
      (works, e, c, IsChunked-batches works k)
  run_job-batches (packet (scan_wb_unprotected_roots objects)) tls w idle safe =
      let roots = (reachable_children build core up objects w).0 in
      (
        chunks 4096 roots,
        scan_wb_unprotected_do_work-reachable build core up objects tls w idle safe,
        concat-chunks 4096 roots (omega arith),
        IsChunked-batches (chunks 4096 roots) (chunks-IsChunked 4096 roots (omega arith)),
      )
  run_job-batches (packet _) tls w idle safe = ([], refl, refl, tt)
  run_job-batches (mutator m) tls w idle safe =
      let (works, e, c, k) =
        scan_roots_in_mutator_thread-chunks build core up m tls_addr tls w idle (safe w) in
      (works, e, c, IsChunked-batches works k)

  pub run_jobs-batches :
      (jobs : List RootJob) (tls : GcThreadTls RootLocals W) (w : W)
      → IsIdle tls
      → All IsSafe jobs
      → (works : List (List ObjectReference)) × (run_jobs jobs tls w
          ≡ ok (works, tls, (all_roots jobs w).1))
        × (concat works ≡ (all_roots jobs w).0)
        × All IsBatch works
  unfolding run_jobs all_roots
  run_jobs-batches [] tls w idle safe = ([], refl, refl, tt)
  run_jobs-batches (job ∷ jobs) tls w idle safe =
      let (works, e, c, k) = run_job-batches job tls w idle safe.0 in
      let (rest, e', c', k') = run_jobs-batches jobs tls (roots_of job w).1 idle safe.1 in
      (
        works ++ rest,
        rw (e, e') refl,
        concat-append works rest ∙ rw (c, c') refl,
        All-append works rest k k',
      )

  -- The packets of all submissions, in order.
  abbrev pub packets_of : List Submission → List RootJob
  packets_of [] = []
  packets_of (s ∷ ss) = map packet s.packets ++ packets_of ss

  pub IsSafe-wb :
      (safe : (object : ObjectReference) (x : W)
        → VisitsObjects build core (up.scan_object_ruby_style object x))
      (ps : List Packet)
      → ((scanner : RootScanner) (x : W) → VisitsObjects build core (root_set up scanner x))
      → All IsSafe (map packet ps)
  unfolding IsSafe
  IsSafe-wb safe [] scanners = tt
  IsSafe-wb safe (root_scanner scanner ∷ ps) scanners =
      (scanners scanner, IsSafe-wb safe ps scanners)
  IsSafe-wb safe (scan_wb_unprotected_roots objects ∷ ps) scanners =
      (each objects, IsSafe-wb safe ps scanners)
    where
      each :
          (objects : List ObjectReference)
          → All
              (λ object. (x : W) → VisitsObjects build core (up.scan_object_ruby_style object x))
              objects
      each [] = tt
      each (o ∷ os) = (λ x. safe o x, each os)
  IsSafe-wb safe (_ ∷ ps) scanners = (tt, IsSafe-wb safe ps scanners)

  pub All-jobs : (xs ys : List RootJob) → All IsSafe xs → All IsSafe ys → All IsSafe (xs ++ ys)
  All-jobs [] ys h k = k
  All-jobs (x ∷ xs) ys h k = (h.0, All-jobs xs ys h.1 k)
