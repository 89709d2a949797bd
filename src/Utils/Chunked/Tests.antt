-- ===== src/Utils/Chunked/Tests.antt =====
-- The collector on concrete inputs.
use mmtk_ruby.Base.{ℕ, ◌≡◌, refl, List, [], ◌∷◌, arith, chunks}
use mmtk_ruby.Utils.Chunked.{new, add, extend, into_vecs}
use mmtk_ruby.Utils.Chunked.Laws.{into_vecs-extend}

abbrev five : List ℕ
five = 1 ∷ 2 ∷ 3 ∷ 4 ∷ 5 ∷ []

five_by_two : into_vecs (extend (new 2) five) ≡ (1 ∷ 2 ∷ []) ∷ (3 ∷ 4 ∷ []) ∷ (5 ∷ []) ∷ []
unfolding into_vecs extend new add
five_by_two = refl

four_by_two :
    into_vecs {A = ℕ} (extend (new 2) (1 ∷ 2 ∷ 3 ∷ 4 ∷ [])) ≡ (1 ∷ 2 ∷ []) ∷ (3 ∷ 4 ∷ []) ∷ []
unfolding into_vecs extend new add
four_by_two = refl

into_vecs-extend_example : into_vecs (extend (new 2) five) ≡ chunks 2 five
into_vecs-extend_example = into_vecs-extend 2 five (omega arith)
