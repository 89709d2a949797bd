-- ===== src/Base/HashMap.antt =====
-- Rust's `HashMap<ObjectReference, V>`: an association list, each key once. The order of iteration
-- is not specified: code that drains a map takes it as an argument.
use Prim.Native.Nat.{ℕ}
use mathlib.Core.Path.{◌≡◌, refl}
use mathlib.Core.Bool.{false, ◌||◌}
use mathlib.Core.List.{List, [], ◌∷◌, ◌++◌}
use mathlib.Core.Option.{Option, none, some}
use native.Mathlib.Omega.{arith}
use mmtk_ruby.Base.Tests.{◌==◌, if◌then◌else◌}
use mmtk_ruby.Base.HashSet.{contains, IsHashSet}

module _ {ℓ} {V : Type ℓ} where
  unfoldable pub insert : List (ℕ × V) → ℕ → V → List (ℕ × V)
  insert [] k v = (k, v) ∷ []
  insert ((j, u) ∷ m) k v = let rest = insert m k v in if j == k then (k, v) ∷ m else (j, u) ∷ rest

  unfoldable pub get : List (ℕ × V) → ℕ → Option V
  get [] k = none
  get ((j, u) ∷ m) k = let rest = get m k in if j == k then some u else rest

  abbrev pub keys : List (ℕ × V) → List ℕ
  keys [] = []
  keys ((j, u) ∷ m) = j ∷ keys m

  pub get-insert :
      (m : List (ℕ × V)) (k : ℕ) (v : V) (j : ℕ)
      → get (insert m k v) j ≡ (if k == j then some v else get m j)
  unfolding insert get
  get-insert [] k v j = refl
  get-insert ((i, u) ∷ m) k v j = ground (arith, get-insert m k v j)

  keys-insert :
      (m : List (ℕ × V)) (k : ℕ) (v : V) (j : ℕ)
      → contains (keys (insert m k v)) j ≡ (k == j || contains (keys m) j)
  unfolding insert contains
  keys-insert [] k v j = refl
  keys-insert ((i, u) ∷ m) k v j = ground (arith, keys-insert m k v j)

  abbrev pub IsHashMap : List (ℕ × V) → Type 0
  IsHashMap m = IsHashSet (keys m)

  pub insert-IsHashMap : (m : List (ℕ × V)) (k : ℕ) (v : V) → IsHashMap m → IsHashMap (insert m k v)
  unfolding insert contains
  insert-IsHashMap [] k v h = (refl, tt)
  insert-IsHashMap ((i, u) ∷ m) k v h = ground (arith, insert-IsHashMap m k v, keys-insert m k v i)

  -- A new key goes to the end.
  pub insert-fresh :
      (m : List (ℕ × V)) (k : ℕ) (v : V)
      → contains (keys m) k ≡ false
      → insert m k v ≡ m ++ (k, v) ∷ []
  unfolding insert contains
  insert-fresh [] k v h = refl
  insert-fresh ((i, u) ∷ m) k v h = ground (arith, insert-fresh m k v)

  pub keys-append :
      (m m' : List (ℕ × V)) (k : ℕ)
      → contains (keys (m ++ m')) k ≡ (contains (keys m) k || contains (keys m') k)
  unfolding contains
  keys-append [] m' k = refl
  keys-append ((i, u) ∷ m) m' k = ground (arith, keys-append m m' k)
