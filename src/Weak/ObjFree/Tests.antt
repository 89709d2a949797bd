-- ===== src/Weak/ObjFree/Tests.antt =====
-- Candidates for `obj_free` on a concrete heap: 24 is dead, and 16 has moved to 1016.
use mmtk_ruby.Base.{ℕ, ◌≡◌, refl, [], ◌∷◌, ok, unlocked}
use mmtk_ruby.Vm.Toy.{toy, toy_core, toy_upcalls}
use mmtk_ruby.Weak.{WeakProcessor, set_candidates}
use mmtk_ruby.Weak.ObjFree.{do_work}
use mmtk_ruby.Weak.ObjFree.Laws.{do_work-partition}

abbrev candidates : WeakProcessor
candidates = record { obj_free_candidates = unlocked (16 ∷ 24 ∷ 32 ∷ 24 ∷ []) }

do_work-partition_example :
    (do_work toy_core toy_upcalls candidates toy
      ≡ ok (set_candidates candidates (1016 ∷ 32 ∷ []), record toy { freed = 24 ∷ 24 ∷ [] }))
    × ◌≡◌ {A = ℕ} 4 4
do_work-partition_example =
    do_work-partition toy_core toy_upcalls (λ o w x. (refl, refl)) candidates toy refl
