-- ===== src/Ppp/Packets/Tests.antt =====
-- The packets of PPPs on concrete inputs.
use mmtk_ruby.Base.{◌≡◌, refl, true, false, List, [], ◌∷◌, ◌++◌, All, some, ok, unlocked}
use mmtk_ruby.Build.{Build}
use mmtk_ruby.Vm.{ObjectReference}
use mmtk_ruby.Vm.Toy.{Toy, toy, toy_core, toy_upcalls, toy_pin_bits, two_children-SamePins, set_pin}
use mmtk_ruby.Abi.Tls.{GcThreadTls, IsIdle, for_worker, from_vwt_check, with_object_closure}
use mmtk_ruby.Abi.Closure.{set_temporarily_and_run_code, run_script}
use mmtk_ruby.Ppp.{PppRegistry, set_pinned}
use mmtk_ruby.Ppp.Packets.{PinLocals, pin_do_work}
use mmtk_ruby.Ppp.Packets.Pins.{Owns}
use mmtk_ruby.Ppp.Packets.Cycle.{pin_packets, pin_do_work-pins}

abbrev pub debug : Build
debug = record { debug_assertions = true; extra_assert_feature = false; clear_old_copy = false }

abbrev pub tls : GcThreadTls PinLocals Toy
unfolding for_worker
tls = for_worker 4096

pub tls-IsIdle : IsIdle tls
unfolding for_worker
tls-IsIdle = record { is_worker = refl; no_closure = refl }

-- Of these, 24 is dead, 16 has moved to 1016, and 48 is no longer a PPP.
abbrev pub registry : PppRegistry
registry = record { ppps = unlocked (8 ∷ 16 ∷ 24 ∷ 48 ∷ []); pinned_ppp_children = unlocked [] }

pin_do_work-pins_example :
    (newly : List ObjectReference) × (w' : Toy) × (pin_do_work debug toy_core toy_upcalls
        (56 ∷ 64 ∷ [])
        (some tls)
        registry
        toy
      ≡ ok (set_pinned registry ([] ++ newly), tls, w'))
    × All (λ x. toy_core.is_pinned w' x ≡ true) (64 ∷ 72 ∷ [])
    × Owns toy_core (toy_core.is_pinned toy) newly w'
pin_do_work-pins_example =
    pin_do_work-pins debug toy_core toy_upcalls toy_pin_bits two_children-SamePins (56 ∷ 64 ∷ [])
      tls registry toy tls-IsIdle refl

-- 56 and 64 want 64 and 72 pinned; 72 is pinned already, and 48 is skipped.
abbrev packets : List (List ObjectReference)
packets = (56 ∷ 48 ∷ []) ∷ (64 ∷ 56 ∷ []) ∷ []

abbrev pinned : Toy
pinned = set_pin (set_pin (set_pin toy 64 true) 72 true) 64 true

pinned_by_gc :
    pin_packets debug toy_core toy_upcalls packets tls registry toy
    ≡ ok (set_pinned registry (64 ∷ []), tls, pinned)
unfolding for_worker pin_do_work from_vwt_check with_object_closure set_temporarily_and_run_code
    run_script
pinned_by_gc = refl
