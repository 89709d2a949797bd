-- ===== src/Base/Chunks.antt =====
-- `slice::chunks` of Rust's standard library: the elements by `n` at a time, the last chunk shorter.
use Prim.Native.Nat.{ℕ, zero, suc, ◌≤◌, ◌<◌}
use mathlib.Core.Path.{◌≡◌, refl, ap, ◌∙◌}
use mathlib.Core.Logic.{◌⊎◌, inl, inr}
use mathlib.Core.List.{List, [], ◌∷◌, ◌++◌}
use native.Mathlib.Decide.{dec_le}
use native.Mathlib.Omega.{arith}
use mmtk_ruby.Base.Lists.{length, take, drop, concat, take-append-drop, length-take, length-drop}

module _ {ℓ} {A : Type ℓ} where
  -- On fuel: each chunk but the empty one takes an element.
  chunks_fuel : ℕ → ℕ → List A → List (List A)
  chunks_fuel zero n xs = []
  chunks_fuel (suc f) n [] = []
  chunks_fuel (suc f) n (x ∷ xs) = take n (x ∷ xs) ∷ chunks_fuel f n (drop n (x ∷ xs))

  unfoldable pub chunks : ℕ → List A → List (List A)
  unfolding chunks_fuel
  chunks n xs = chunks_fuel (length xs) n xs

  -- Full chunks, and a last one that is not empty.
  abbrev pub IsChunked : ℕ → List (List A) → Type 0
  IsChunked n [] = Unit
  IsChunked n (c ∷ []) = (0 < length c) × (length c ≤ n)
  IsChunked n (c ∷ d ∷ r) = (length c ≡ n) × IsChunked n (d ∷ r)

  chunks_fuel_enough :
      (f g n : ℕ) (xs : List A)
      → 0 < n
      → length xs ≤ f
      → length xs ≤ g
      → chunks_fuel f n xs ≡ chunks_fuel g n xs
  unfolding chunks_fuel
  chunks_fuel_enough zero zero n xs p h k = refl
  chunks_fuel_enough zero (suc g) n [] p h k = refl
  chunks_fuel_enough zero (suc g) n (x ∷ xs) p h k = absurd (omega arith)
  chunks_fuel_enough (suc f) zero n [] p h k = refl
  chunks_fuel_enough (suc f) zero n (x ∷ xs) p h k = absurd (omega arith)
  chunks_fuel_enough (suc f) (suc g) n [] p h k = refl
  chunks_fuel_enough (suc f) (suc g) n (x ∷ xs) p h k =
      ap (λ r. take n (x ∷ xs) ∷ r)
        (chunks_fuel_enough f g n (drop n (x ∷ xs)) p (omega (arith, length-drop n (x ∷ xs)))
          (omega (arith, length-drop n (x ∷ xs))))

  pub chunks-nil : (n : ℕ) → chunks n [] ≡ []
  unfolding chunks
  chunks-nil n = refl

  pub chunks-cons :
      (n : ℕ) (x : A) (xs : List A)
      → 0 < n
      → chunks n (x ∷ xs) ≡ take n (x ∷ xs) ∷ chunks n (drop n (x ∷ xs))
  unfolding chunks
  chunks-cons n x xs p =
      ap (λ r. take n (x ∷ xs) ∷ r)
        (chunks_fuel_enough (length xs) (length (drop n (x ∷ xs))) n (drop n (x ∷ xs)) p
          (omega (arith, length-drop n (x ∷ xs))) (omega arith))

  take_exact : (xs ys : List A) → take (length xs) (xs ++ ys) ≡ xs
  take_exact [] ys = refl
  take_exact (x ∷ xs) ys = ap (λ r. x ∷ r) (take_exact xs ys)

  drop_exact : (xs ys : List A) → drop (length xs) (xs ++ ys) ≡ ys
  drop_exact [] ys = refl
  drop_exact (x ∷ xs) ys = drop_exact xs ys

  -- A full chunk splits off.
  pub chunks_full :
      (n : ℕ) (c xs : List A) → 0 < n → length c ≡ n → chunks n (c ++ xs) ≡ c ∷ chunks n xs
  chunks_full n [] xs p h = absurd (omega arith)
  chunks_full n (x ∷ c) xs p h =
      rw (chunks-cons n x (c ++ xs) p, ← h, take_exact (x ∷ c) xs, drop_exact (x ∷ c) xs)

  take_all : (n : ℕ) (xs : List A) → length xs ≤ n → take n xs ≡ xs
  take_all zero [] h = refl
  take_all zero (x ∷ xs) h = absurd (omega arith)
  take_all (suc n) [] h = refl
  take_all (suc n) (x ∷ xs) h = ap (λ r. x ∷ r) (take_all n xs (omega arith))

  drop_all : (n : ℕ) (xs : List A) → length xs ≤ n → drop n xs ≡ []
  drop_all zero [] h = refl
  drop_all zero (x ∷ xs) h = absurd (omega arith)
  drop_all (suc n) [] h = refl
  drop_all (suc n) (x ∷ xs) h = drop_all n xs (omega arith)

  pub chunks_short :
      (n : ℕ) (x : A) (xs : List A) → length (x ∷ xs) ≤ n → chunks n (x ∷ xs) ≡ (x ∷ xs) ∷ []
  chunks_short n x xs h =
      rw (
        chunks-cons n x xs (omega arith),
        take_all n (x ∷ xs) h,
        drop_all n (x ∷ xs) h,
        chunks-nil n,
      )

  -- Nothing is lost, doubled or moved.
  concat-chunks_fuel :
      (f n : ℕ) (xs : List A) → 0 < n → length xs ≤ f → concat (chunks_fuel f n xs) ≡ xs
  unfolding chunks_fuel
  concat-chunks_fuel zero n [] p h = refl
  concat-chunks_fuel zero n (x ∷ xs) p h = absurd (omega arith)
  concat-chunks_fuel (suc f) n [] p h = refl
  concat-chunks_fuel (suc f) n (x ∷ xs) p h =
      ap (λ r. take n (x ∷ xs) ++ r)
        (concat-chunks_fuel f n (drop n (x ∷ xs)) p (omega (arith, length-drop n (x ∷ xs))))
      ∙ take-append-drop n (x ∷ xs)

  pub concat-chunks : (n : ℕ) (xs : List A) → 0 < n → concat (chunks n xs) ≡ xs
  unfolding chunks
  concat-chunks n xs p = concat-chunks_fuel (length xs) n xs p (omega arith)

  IsChunked-cons :
      (n : ℕ) (c : List A) (r : List (List A))
      → 0 < length c
      → length c ≤ n
      → (r ≡ []) ⊎ (length c ≡ n)
      → IsChunked n r
      → IsChunked n (c ∷ r)
  IsChunked-cons n c [] h k e v = (h, k)
  IsChunked-cons n c (d ∷ r) h k (inl e) v = cc
  IsChunked-cons n c (d ∷ r) h k (inr e) v = (e, v)

  chunks_fuel_nil : (f n : ℕ) → chunks_fuel f n [] ≡ []
  unfolding chunks_fuel
  chunks_fuel_nil zero n = refl
  chunks_fuel_nil (suc f) n = refl

  last_or_full :
      (f n : ℕ) (xs : List A) → (chunks_fuel f n (drop n xs) ≡ []) ⊎ (length (take n xs) ≡ n)
  last_or_full f n xs = elim (dec_le (length xs) n) [
    | yes h ↦ inl (rw (drop_all n xs h) (chunks_fuel_nil f n))
    | no h ↦ inr (omega (arith, length-take n xs))
  ]

  chunks_fuel-IsChunked : (f n : ℕ) (xs : List A) → 0 < n → IsChunked n (chunks_fuel f n xs)
  unfolding chunks_fuel
  chunks_fuel-IsChunked zero n xs p = tt
  chunks_fuel-IsChunked (suc f) n [] p = tt
  chunks_fuel-IsChunked (suc f) n (x ∷ xs) p =
      IsChunked-cons n (take n (x ∷ xs)) (chunks_fuel f n (drop n (x ∷ xs)))
        (omega (arith, length-take n (x ∷ xs))) (omega (arith, length-take n (x ∷ xs)))
        (last_or_full f n (x ∷ xs)) (chunks_fuel-IsChunked f n (drop n (x ∷ xs)) p)

  pub chunks-IsChunked : (n : ℕ) (xs : List A) → 0 < n → IsChunked n (chunks n xs)
  unfolding chunks
  chunks-IsChunked n xs p = chunks_fuel-IsChunked (length xs) n xs p
