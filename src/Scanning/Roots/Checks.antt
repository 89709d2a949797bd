-- ===== src/Scanning/Roots/Checks.antt =====
-- mmtk/src/scanning.rs: the check of each root in builds with extra assertions.
use mmtk_ruby.Base.{
  ◌≡◌, refl, arith, Bool, true, false, ◌||◌, ◌&&◌, Bool-cases, inl, inr, some, panic,
  not_mmtk_object,
}
use mmtk_ruby.Build.{Build}
use mmtk_ruby.Vm.{Core, RubyUpcalls, Script, finish, visit}
use mmtk_ruby.Packet.{RootScanner}
use mmtk_ruby.Abi.Closure.Laws.{run_visits}
use mmtk_ruby.Abi.Tls.{GcThreadTls, IsIdle, from_vwt_check-IsIdle, with_object_closure-panic}
use mmtk_ruby.Scanning.{is_mmtk_object_safe}
use mmtk_ruby.Scanning.Roots.{
  RootLocals, no_roots, push_root, visit_root, collect_object_roots_in, scan_roots,
  root_scanner_do_work,
}

module _ {W : Type 0} (build : Build) (core : Core W) where
  -- Whether all objects that the code visits are MMTk objects then.
  abbrev pub visits_objects : Script W → Bool
  visits_objects (finish w) = true
  visits_objects (visit w object pin rest) =
      is_mmtk_object_safe core w object && visits_objects (rest w object)

  run_visits-panic :
      (code : Script W) (s : RootLocals)
      → (build.debug_assertions || build.extra_assert_feature) ≡ true
      → visits_objects code ≡ false
      → run_visits (visit_root build core) code s ≡ panic not_mmtk_object
  unfolding run_visits visit_root
  run_visits-panic (finish w) s h v = cc
  run_visits-panic (visit w object pin rest) s h v =
      elim (Bool-cases (is_mmtk_object_safe core w object)) [
        | inl safe ↦
            rw (h, safe) (run_visits-panic (rest w object) (push_root s object) h (ground arith))
        | inr other ↦ rw (h, other) refl
      ]

  -- With extra assertions, on an idle worker: if CRuby reports anything that is not an MMTk object
  -- as a root, the packet panics.
  pub root_scanner_do_work-panics :
      (up : RubyUpcalls W) (scanner : RootScanner) (tls : GcThreadTls RootLocals W) (w : W)
      → IsIdle tls
      → (build.debug_assertions || build.extra_assert_feature) ≡ true
      → visits_objects (scan_roots build core up scanner w) ≡ false
      → root_scanner_do_work build core up scanner (some tls) w ≡ panic not_mmtk_object
  unfolding root_scanner_do_work collect_object_roots_in
  root_scanner_do_work-panics up scanner tls w idle h v =
      rw
        (
          from_vwt_check-IsIdle build tls idle,
          with_object_closure-panic build (visit_root build core) (scan_roots build core up scanner)
              tls no_roots w not_mmtk_object idle
              (run_visits-panic (scan_roots build core up scanner w) no_roots h v),
        )
        refl
