-- ===== src/Scanning/VmRoots/Tests.antt =====
-- Root packets on the small heap, in a nursery GC.
use mathlib.Core.List.{Permᴰ}
use mathlib.Core.List.Permᴰ as Perm
use mmtk_ruby.Base.{◌≡◌, refl, true, [], ◌∷◌, some, ok, unlocked, concat, List, IsChunked}
use mmtk_ruby.Base.HashSet.{HashSet}
use mmtk_ruby.Build.{Build}
use mmtk_ruby.Vm.Toy.{Toy, toy, toy_core}
use mmtk_ruby.Vm.{ObjectReference}
use mmtk_ruby.Abi.Tls.{GcThreadTls, for_worker}
use mmtk_ruby.Scanning.VmRoots.{scan_vm_specific_roots}
use mmtk_ruby.Scanning.VmRoots.Laws.{root_submissions, scan_vm_specific_roots-covers}

abbrev checked : Build
checked = record { debug_assertions = true; extra_assert_feature = true; clear_old_copy = true }

abbrev idle_tls : GcThreadTls (Unit {0}) Toy
idle_tls = for_worker 7000

abbrev unprotected : HashSet
unprotected = 40 ∷ 8 ∷ []

scan_vm_specific_roots-covers_example :
    (vs : List (List ObjectReference)) × (scan_vm_specific_roots checked toy_core
        (λ s. s)
        (some idle_tls)
        (unlocked unprotected)
        toy
      ≡ ok (root_submissions vs))
    × Permᴰ (concat vs) unprotected
    × IsChunked 128 vs
unfolding for_worker
scan_vm_specific_roots-covers_example =
    scan_vm_specific_roots-covers checked toy_core (λ s. s) idle_tls (unlocked unprotected) toy
      Perm.refl (record { is_worker = refl; no_closure = refl }) refl
