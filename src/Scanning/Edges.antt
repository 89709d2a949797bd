-- ===== src/Scanning/Edges.antt =====
-- mmtk/src/scanning.rs: `scan_object_and_trace_edges`, and the end of weak processing.
mod Tests
use mmtk_ruby.Base.{
  ◌≡◌, refl, ap, true, Bool, List, ◌++◌, Option, some, Outcome, ok, panic, ◌>>=◌, ◌>>◌,
  not_mmtk_object, unsupported,
}
use mmtk_ruby.Build.{Build, extra_assert, extra_assert-true}
use mmtk_ruby.Packet.{Submission}
use mmtk_ruby.Vm.{ObjectReference, Core, RubyUpcalls, Script, finish, visit}
use mmtk_ruby.Abi.Closure.{VisitObject, upcall}
use mmtk_ruby.Abi.Closure.Laws.{run_visits}
use mmtk_ruby.Abi.Tls.{
  GcThreadTls, from_vwt_check, with_object_closure, IsIdle, from_vwt_check-IsIdle,
  with_object_closure-upcall,
}
use mmtk_ruby.Scanning.{is_mmtk_object_safe}

abbrev pub unique_object_enqueuing : Bool
unique_object_enqueuing = true

module _ {W : Type 0} (build : Build) (core : Core W) where
  -- The closure; `W` stands for the object tracer too.
  trace_edge : VisitObject (Unit {0}) W
  trace_edge s w target_object pin =
      extra_assert build (is_mmtk_object_safe core w target_object) not_mmtk_object
      >> ok ((core.trace_object target_object w).0, s, (core.trace_object target_object w).1)

  pub scan_object_and_trace_edges :
      RubyUpcalls W
      → Option (GcThreadTls (Unit {0}) W)
      → ObjectReference
      → W
      → Outcome (GcThreadTls (Unit {0}) W × W)
  unfolding trace_edge
  scan_object_and_trace_edges up vwt object w = do
    extra_assert build (is_mmtk_object_safe core w object) not_mmtk_object
    gc_tls ← from_vwt_check build vwt
    r ← with_object_closure build trace_edge (upcall (up.scan_object_ruby_style object)) gc_tls tt w
    ok (r.1, r.3)

  -- CRuby's scan of an object if each edge is handed to the tracer, and CRuby gets back what the
  -- tracer returns.
  abbrev pub traced : Script W → W
  traced (finish w) = w
  traced (visit w object pin rest) =
      traced (rest (core.trace_object object w).1 (core.trace_object object w).0)

  -- Every edge of that scan leads to an MMTk object.
  abbrev pub EdgesAreObjects : Script W → Type 0
  EdgesAreObjects (finish w) = Unit
  EdgesAreObjects (visit w object pin rest) =
      (is_mmtk_object_safe core w object ≡ true)
      × EdgesAreObjects (rest (core.trace_object object w).1 (core.trace_object object w).0)

  trace_edge-ok :
      (w : W) (object : ObjectReference) (pin : Bool)
      → is_mmtk_object_safe core w object ≡ true
      → trace_edge tt w object pin
        ≡ ok ((core.trace_object object w).0, tt, (core.trace_object object w).1)
  unfolding trace_edge
  trace_edge-ok w object pin h = rw (h, extra_assert-true build not_mmtk_object) refl

  run_visits-traced :
      (code : Script W)
      → EdgesAreObjects code
      → run_visits trace_edge code tt ≡ ok (tt, traced code)
  unfolding run_visits
  run_visits-traced (finish w) h = refl
  run_visits-traced (visit w object pin rest) h =
      rw (trace_edge-ok w object pin h.0)
        (run_visits-traced (rest (core.trace_object object w).1 (core.trace_object object w).0) h.1)

  -- On an idle worker, if the object and the targets of its edges are MMTk objects: each edge that
  -- CRuby visits is traced once, in order, and CRuby goes on with the reference that the tracer
  -- returns; the worker is idle again.
  pub scan_object_and_trace_edges-traced :
      (up : RubyUpcalls W) (tls : GcThreadTls (Unit {0}) W) (object : ObjectReference) (w : W)
      → IsIdle tls
      → is_mmtk_object_safe core w object ≡ true
      → EdgesAreObjects (up.scan_object_ruby_style object w)
      → scan_object_and_trace_edges up (some tls) object w
        ≡ ok (tls, traced (up.scan_object_ruby_style object w))
  unfolding scan_object_and_trace_edges
  scan_object_and_trace_edges-traced up tls object w idle safe edges =
      rw
        (
          safe,
          extra_assert-true build not_mmtk_object,
          from_vwt_check-IsIdle build tls idle,
          with_object_closure-upcall build trace_edge (up.scan_object_ruby_style object) tls tt w
              idle (run_visits-traced (up.scan_object_ruby_style object w) edges),
        )
        refl
