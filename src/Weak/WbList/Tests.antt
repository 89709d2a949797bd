-- ===== src/Weak/WbList/Tests.antt =====
-- The set of WB-unprotected objects on a concrete heap: 24 is dead, and 16 has moved to 1016. The set
-- is iterated over backwards.
use mathlib.Core.List.Permᴰ
use mathlib.Core.List.{reverse}
use mmtk_ruby.Base.{◌≡◌, refl, true, [], ◌∷◌, ok, unlocked, free}
use mmtk_ruby.Base.HashSet.{HashSet}
use mmtk_ruby.Vm.Toy.{toy, toy_core}
use mmtk_ruby.Weak.WbList.{do_work}
use mmtk_ruby.Weak.WbList.View.{members, is_member, updated, do_work-updated}

do_work-updated_example :
    (s s' : HashSet) × (do_work toy_core toy reverse (unlocked (16 ∷ 24 ∷ 32 ∷ []))
      ≡ ok (record { status = free; value = s }))
    × (do_work toy_core toy (λ xs. xs) (unlocked (16 ∷ 24 ∷ 32 ∷ []))
        ≡ ok (record { status = free; value = s' }))
    × (members s ≡ updated toy_core toy (members (16 ∷ 24 ∷ 32 ∷ [])))
    × (is_member 1016 (members s) ≡ true)
    × (members s ≡ members s')
do_work-updated_example =
    do_work-updated toy_core toy reverse (λ xs. xs) (unlocked (16 ∷ 24 ∷ 32 ∷ [])) 1016
      Permᴰ.reverse Permᴰ.refl refl
