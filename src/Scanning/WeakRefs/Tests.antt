-- ===== src/Scanning/WeakRefs/Tests.antt =====
-- The end of the closure on the small heap, in a moving GC that has pinned object 64.
use mmtk_ruby.Base.{◌≡◌, refl, true, false, [], ◌∷◌, ok, unlocked, arith, true≢false}
use mmtk_ruby.Build.{Build}
use mmtk_ruby.Vm.Toy.{toy, toy_core, toy_upcalls}
use mmtk_ruby.Ppp.{PppRegistry, set_pinned}
use mmtk_ruby.Weak.Tables.{ChunkSizes, TableWork}
use mmtk_ruby.Scanning.WeakRefs.{process_weak_refs}
use mmtk_ruby.Scanning.WeakRefs.Laws.{submitted, EachEntryOnce, HasFlags, process_weak_refs-submits}

abbrev checked : Build
checked = record { debug_assertions = true; extra_assert_feature = true; clear_old_copy = true }

abbrev defaults : ChunkSizes
defaults = record { entries = 1024; bins = 4096 }

abbrev registry : PppRegistry
registry = record { ppps = unlocked (56 ∷ []); pinned_ppp_children = unlocked (64 ∷ []) }

process_weak_refs-submits_example :
    (strings symbols : TableWork) × (process_weak_refs checked toy_upcalls defaults toy_core
        registry toy
      ≡ ok (
        set_pinned registry [],
        submitted checked toy_upcalls defaults toy_core strings symbols true (64 ∷ []),
        (strings, symbols),
        false,
      ))
    × EachEntryOnce checked toy_upcalls defaults toy_core strings 9008 2500 toy
    × EachEntryOnce checked toy_upcalls defaults toy_core symbols 9040 2500 toy
    × HasFlags checked toy_upcalls defaults toy_core strings 9008 true false true 0
    × HasFlags checked toy_upcalls defaults toy_core symbols 9040 false true true 1
process_weak_refs-submits_example =
    process_weak_refs-submits checked toy_upcalls defaults toy_core registry toy 2500 (omega arith)
      (omega arith) (omega arith, omega arith) (omega arith, omega arith) refl
      (λ h. absurd (true≢false h))
