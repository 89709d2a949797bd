-- ===== src/Weak/Processors/Tests.antt =====
-- The packet for generic instance variables, after object 16 has moved to 1016.
use mathlib.Core.List.{Permᴰ}
use mathlib.Core.List.Permᴰ as Perm
use mmtk_ruby.Base.{◌≡◌, refl, true, [], ◌∷◌, some, ok, unlocked}
use mmtk_ruby.Build.{Build}
use mmtk_ruby.Vm.Toy.{Toy, toy, toy_core, toy_upcalls}
use mmtk_ruby.Givtbl.{MovedGivtbl}
use mmtk_ruby.Packet.{update_generic_iv_tbl}
use mmtk_ruby.Abi.Tls.{GcThreadTls, for_worker}
use mmtk_ruby.Weak.Processors.{do_work}
use mmtk_ruby.Weak.Processors.Laws.{moved, do_work-forwarded}

abbrev checked : Build
checked = record { debug_assertions = true; extra_assert_feature = true; clear_old_copy = true }

abbrev idle_tls : GcThreadTls (Unit {0}) Toy
idle_tls = for_worker 7000

abbrev one_moved : MovedGivtbl
one_moved = (1016, record { old_objref = 16; gen_ivtbl = 5000 }) ∷ []

do_work-forwarded_example :
    (entries : MovedGivtbl) × Permᴰ entries one_moved
    × (do_work checked toy_core toy_upcalls update_generic_iv_tbl
          (λ m. m)
          (some idle_tls)
          (unlocked one_moved)
          toy
        ≡ ok (unlocked [], idle_tls, moved toy_upcalls entries toy))
unfolding for_worker
do_work-forwarded_example =
    do_work-forwarded checked toy_core toy_upcalls update_generic_iv_tbl (λ m. m) idle_tls
      (unlocked one_moved) toy Perm.refl (record { is_worker = refl; no_closure = refl }) refl tt
