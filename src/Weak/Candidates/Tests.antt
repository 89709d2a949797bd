-- ===== src/Weak/Candidates/Tests.antt =====
-- A few calls on the list of candidates.
use mmtk_ruby.Base.{◌≡◌, refl, List, [], ◌∷◌, ◌++◌, ok, unlocked}
use mmtk_ruby.Vm.{ObjectReference}
use mmtk_ruby.Weak.{WeakProcessor, set_candidates}
use mmtk_ruby.Weak.Candidates.{Call, add, add_many, get_all, perform_all, perform_all-fifo}

abbrev one_candidate : WeakProcessor
one_candidate = record { obj_free_candidates = unlocked (8 ∷ []) }

abbrev calls : List Call
calls = add 16 ∷ get_all ∷ add_many (24 ∷ 32 ∷ []) ∷ []

perform_all-fifo_example :
    (l taken : List ObjectReference) × (perform_all one_candidate calls
      ≡ ok (set_candidates one_candidate l, taken))
    × (taken ++ l ≡ 8 ∷ 16 ∷ 24 ∷ 32 ∷ [])
perform_all-fifo_example = perform_all-fifo calls one_candidate refl
