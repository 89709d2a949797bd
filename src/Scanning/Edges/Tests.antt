-- ===== src/Scanning/Edges/Tests.antt =====
-- Tracing the edges of an object of the small heap.
use mmtk_ruby.Base.{◌≡◌, refl, true, some, ok}
use mmtk_ruby.Build.{Build}
use mmtk_ruby.Vm.Toy.{Toy, toy, toy_core, toy_upcalls}
use mmtk_ruby.Abi.Tls.{GcThreadTls, for_worker}
use mmtk_ruby.Scanning.{is_mmtk_object_safe}
use mmtk_ruby.Scanning.Edges.{scan_object_and_trace_edges, scan_object_and_trace_edges-traced}

abbrev checked : Build
checked = record { debug_assertions = true; extra_assert_feature = true; clear_old_copy = true }

abbrev idle_tls : GcThreadTls (Unit {0}) Toy
idle_tls = for_worker 7000

scan_object_and_trace_edges-traced_example :
    scan_object_and_trace_edges checked toy_core toy_upcalls (some idle_tls) 32 toy
    ≡ ok (idle_tls, toy)
unfolding for_worker is_mmtk_object_safe
scan_object_and_trace_edges-traced_example =
    scan_object_and_trace_edges-traced checked toy_core toy_upcalls idle_tls 32 toy
      (record { is_worker = refl; no_closure = refl }) refl (refl, (refl, tt))
