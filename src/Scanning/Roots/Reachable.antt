-- ===== src/Scanning/Roots/Reachable.antt =====
-- mmtk/src/scanning.rs: the packet `ScanWbUnprotectedRoots`.
use mmtk_ruby.Base.{
  ◌≡◌, refl, List, [], ◌∷◌, ◌++◌, if◌then◌else◌, Bool-cases, inl, inr, chunks, All, some, ok,
}
use mmtk_ruby.Build.{Build}
use mmtk_ruby.Vm.{ObjectReference, Core, RubyUpcalls, visits}
use mmtk_ruby.Abi.Closure.Laws.{registered, run_script-registered}
use mmtk_ruby.Abi.Tls.{GcThreadTls, IsIdle, from_vwt_check-IsIdle}
use mmtk_ruby.Scanning.Roots.{
  RootLocals, no_roots, visit_root, scan_reachable, scan_wb_unprotected_do_work,
}
use mmtk_ruby.Scanning.Roots.Laws.{
  push_roots, push_roots-append, VisitsObjects, run_visits-push_roots,
  collect_object_roots_in-chunks,
}

module _ {W : Type 0} (build : Build) (core : Core W) (up : RubyUpcalls W) where
  -- The children of those objects that are reachable when their turn comes, and the last state.
  abbrev pub reachable_children : List ObjectReference → W → List ObjectReference × W
  reachable_children [] w = ([], w)
  reachable_children (object ∷ objects) w =
      let here =
        if core.is_reachable w object
        then visits (up.scan_object_ruby_style object w)
        else ([], w) in
      let later = reachable_children objects here.1 in (here.0 ++ later.0, later.1)

  scan_reachable-push_roots :
      (objects : List ObjectReference) (s : RootLocals) (w : W)
      → All
          (λ object. (x : W) → VisitsObjects build core (up.scan_object_ruby_style object x))
          objects
      → scan_reachable build core up objects (registered (visit_root build core)) s w
        ≡ ok (
          tt,
          registered (visit_root build core),
          push_roots s (reachable_children objects w).0,
          (reachable_children objects w).1,
        )
  unfolding scan_reachable
  scan_reachable-push_roots [] s w scans = refl
  scan_reachable-push_roots (o ∷ os) s w scans = elim (Bool-cases (core.is_reachable w o)) [
    | inl here ↦
        rw
          (
            here,
            run_script-registered (visit_root build core) (up.scan_object_ruby_style o w) s,
            run_visits-push_roots build core (up.scan_object_ruby_style o w) s (scans.0 w),
            push_roots-append s (visits (up.scan_object_ruby_style o w)).0
                (reachable_children os (visits (up.scan_object_ruby_style o w)).1).0,
          )
          (scan_reachable-push_roots os (push_roots s (visits (up.scan_object_ruby_style o w)).0)
            (visits (up.scan_object_ruby_style o w)).1 scans.1)
    | inr gone ↦ rw gone (scan_reachable-push_roots os s w scans.1)
  ]

  -- On an idle worker, and if scanning one of its objects visits MMTk objects only: the packet passes on, in
  -- batches of 4096, the children of those of its objects that are reachable, and nothing for the
  -- others; the worker is idle again.
  pub scan_wb_unprotected_do_work-reachable :
      (objects : List ObjectReference) (tls : GcThreadTls RootLocals W) (w : W)
      → IsIdle tls
      → All
          (λ object. (x : W) → VisitsObjects build core (up.scan_object_ruby_style object x))
          objects
      → scan_wb_unprotected_do_work build core up objects (some tls) w
        ≡ ok (chunks 4096 (reachable_children objects w).0, tls, (reachable_children objects w).1)
  unfolding scan_wb_unprotected_do_work
  scan_wb_unprotected_do_work-reachable objects tls w idle scans =
      rw (from_vwt_check-IsIdle build tls idle) (
        collect_object_roots_in-chunks build core (scan_reachable build core up objects) tls w
          (reachable_children objects w).1 (reachable_children objects w).0 idle
          (scan_reachable-push_roots objects no_roots w scans))
