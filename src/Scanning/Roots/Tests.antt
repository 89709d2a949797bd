-- ===== src/Scanning/Roots/Tests.antt =====
-- Root scanning on the small heap.
use mmtk_ruby.Base.{
  ◌≡◌, refl, true, [], ◌∷◌, some, ok, panic, not_mmtk_object, concat, List, IsChunked,
}
use mmtk_ruby.Build.{Build}
use mmtk_ruby.Vm.{ObjectReference, RubyUpcalls}
use mmtk_ruby.Vm.Toy.{Toy, toy, toy_core, toy_upcalls, two_children}
use mmtk_ruby.Packet.{scan_vm_roots}
use mmtk_ruby.Abi.Tls.{GcThreadTls, for_worker}
use mmtk_ruby.Scanning.{is_mmtk_object_safe}
use mmtk_ruby.Scanning.Roots.{RootLocals, scan_roots, root_scanner_do_work}
use mmtk_ruby.Scanning.Roots.Laws.{root_scanner_do_work-chunks}
use mmtk_ruby.Scanning.Roots.Checks.{root_scanner_do_work-panics}

abbrev checked : Build
checked = record { debug_assertions = true; extra_assert_feature = true; clear_old_copy = true }

abbrev idle_tls : GcThreadTls RootLocals Toy
idle_tls = for_worker 7000

root_scanner_do_work-chunks_example :
    (works : List (List ObjectReference)) × (root_scanner_do_work checked toy_core toy_upcalls
        scan_vm_roots
        (some idle_tls)
        toy
      ≡ ok (works, idle_tls, toy))
    × (concat works ≡ 8 ∷ 16 ∷ [])
    × IsChunked 4096 works
unfolding for_worker scan_roots is_mmtk_object_safe
root_scanner_do_work-chunks_example =
    root_scanner_do_work-chunks checked toy_core toy_upcalls scan_vm_roots idle_tls toy
      (record { is_worker = refl; no_closure = refl }) (refl, (refl, tt))

-- An odd address as a root.
abbrev odd_upcalls : RubyUpcalls Toy
odd_upcalls = record toy_upcalls { scan_vm_roots = two_children 1 }

root_scanner_do_work-panics_example :
    root_scanner_do_work checked toy_core odd_upcalls scan_vm_roots (some idle_tls) toy
    ≡ panic not_mmtk_object
unfolding for_worker scan_roots is_mmtk_object_safe
root_scanner_do_work-panics_example =
    root_scanner_do_work-panics checked toy_core odd_upcalls scan_vm_roots idle_tls toy
      (record { is_worker = refl; no_closure = refl }) refl refl
